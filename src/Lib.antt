-- ===== src/Lib.antt =====
-- Verification of the TypeScript core of flare-hack: an operation on Flare is prepared, committed
-- to in the memo of an XRPL payment, held back by an executor or by a confidential enclave, and
-- released when the payment has been proved or a trigger has been met.
--
-- The client. Memo (packages/sdk/src/memo.ts): the seven encoders and decodeMemo; Memo/Encode and
-- Memo/Decode are the code, Memo/Instruction the choice of an encoder as a value, and the other
-- children its proofs. UserOp (packages/sdk/src/userop.ts): the operation, its bytes and its hash.
-- Fees (packages/sdk/src/fassets.ts): computePaymentAmount. Prepare (packages/sdk/src/prepare.ts):
-- OneSigClient, whose cached addresses are its state, and prepare, which reads the chain, builds
-- the operation and the payment that commits to it.
--
-- The executor. Pending (packages/executor/src/store.ts): PendingStore over a memory and a
-- directory; Pending/Abstract is what it promises, Pending/Represents and Pending/Refines relate
-- the two, and Pending/Listing is about list. Watcher (packages/executor/src/watcher.ts):
-- commitmentFromMemos and poll, which reads the store. Pipeline
-- (packages/executor/src/pipeline.ts): advance is the switch of step, recover its catch block,
-- Pipeline/Run is create and run; Pipeline/Resume and Pipeline/Again follow a job over its rounds
-- and restarts; Pipeline/Rounds says what a round of the outside world must answer, and
-- Pipeline/Nearer and Pipeline/Liveness what then becomes of a job. Fdc
-- (packages/executor/src/fdc.ts): what the answers of the services mean; Fdc/Client is the class
-- that asks them, and Fdc/Wired puts it into the pipeline. Xrpl (packages/executor/src/xrpl.ts):
-- the submission of a payment; Xrpl.Client is the JSON-RPC client that it goes through. Xaman
-- (packages/executor/src/xaman.ts): the sign requests. Decimal: the decimal text of a natural
-- number. Service (packages/executor/src/service.ts): Service/Routes is #handle, Service/Tick is
-- #tick, which polls the watcher, creates jobs and steps them. LatchClient
-- (packages/executor/src/latch.ts): the executor's side of the enclave, which sends a command
-- through the server.
--
-- The enclave. Encoding (extension/typescript/src/base/encoding.ts), Framework
-- (extension/typescript/src/base/types.ts), Server (extension/typescript/src/base/server.ts),
-- Trigger (extension/typescript/src/app/triggers.ts) and Latch
-- (extension/typescript/src/app/handlers.ts): Server routes a request to the handler that
-- Framework finds; Latch/Arm and Latch/Commands are the handlers, Latch/Tick is tick. Latch/World
-- is the enclave under an event loop: handlers run one at a time, and any number of ticks is cut
-- at its await and interleaves with them; the world keeps a log of the checks that ticks have
-- made, with what the node had answered.
--
-- The scripts and the whole. Relay is the wiring of scripts/run-executor.ts, by which the service
-- prepares an operation, and Relay/Delivery follows it through the service, the store and the
-- watcher to its job. Scripts/Preflight (scripts/gate1.ts), Scripts/Resume (scripts/resume-job.ts)
-- and Scripts/Recover (scripts/recover-mint.ts) decide what is sent and what is tried again;
-- Scripts/Passes and Scripts/Released are about the first and the last. Scripts/Demo
-- (scripts/demo-xaman.ts) is the way of a deposit without the executor's page, and Scripts/Agrees
-- compares the two ways.
--
-- State. What the code keeps in module variables, class fields and on disk is a record that an
-- operation takes and returns: Enclave, PendingStore, Watcher, ExecutorService, OneSigClient, the
-- FDC client's cache, the Latch client's counter, and a Dict of jobs for the state directory. What
-- a write does is one of three values of Disk, which the outside world chooses: it is done, it
-- throws and leaves the file as it was, or it throws after the file was emptied, since writeFile
-- truncates a file before it writes. The clock is the outside world's too. Objects that the code
-- mutates while another call holds them are found by their serial number.
--
-- Values. Strings are lists of code points, hex text and byte arrays are lists of numbers, bigints
-- are natural numbers or integers with the range checks of the code written out. BigInt of a text
-- is BigInt, with the white space, the signs and the prefixes that the language allows. A
-- request's body is a record of the type that #handle casts it to; a body with a member of another
-- type is not met. Case mapping is that of ASCII letters. A finite JSON number is an integer count
-- of 2^-1074. An exception is a value of Except, or none where only the fact of throwing matters.
--
-- Outside code. The functions of viem are the records Viem and Abi, with what the program relies
-- on of isHex, isAddress and keccak256; JSON.parse and JSON.stringify on bytes are the record
-- JsonCodec, of which nothing is assumed but, where a theorem says so, that a printed object is
-- read back; the contracts are the record Chain, which answers the same throughout a call; what
-- the FDC client asks is the record Network; the FDC client and the chain that a job talks to are
-- the record Services; the XRPL node is a function from a question, and the number of polls before
-- it, to an answer.
--
-- Fuel and bounds. run is given one record of answers for each of its rounds; a run that is given
-- a round after its deadline has ended. A tick of the enclave is given as many rounds as the map
-- has entries, and no round adds one. The polling of submitPayment recurs on maxPolls, that of a
-- signature on the number of answers. A decimal or hexadecimal text is written with as much fuel
-- as the number itself, and a digit takes at least one. Every other loop recurs on its list.
--
-- Not modelled: sockets and HTTP, log lines, the ABI tables, the client of the Tee node, the
-- scripts that only print what a package answers, the wiring from the environment, the Go, Python
-- and Solidity sources, and the page served to the browser.
pub mod Prelude
pub mod Hex
pub mod Endian
pub mod Viem
pub mod Json
pub mod Pipeline
pub mod Pending
pub mod Watcher
pub mod Fees
pub mod LatchClient
pub mod Xaman
pub mod Relay
pub mod Scripts
pub mod UserOp
pub mod Prepare
pub mod Fdc
pub mod Xrpl
pub mod Service
pub mod Framework
pub mod Server
pub mod Trigger
pub mod Latch
pub mod Encoding
pub mod Decimal
pub mod BigInt
pub mod Dict
pub mod Disk
pub mod Memo
pub mod Tests
