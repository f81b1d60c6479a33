-- ===== src/Disk.antt =====
-- `writeFile(path, text)`, which packages/executor/src/store.ts and pipeline.ts call on a file that
-- may exist: it empties the file before it writes the text.
use flare_hack.Prelude.{Bool, true, false}

-- How a call goes: it succeeds; it throws before the file is touched; or it throws when the file has
-- been emptied, which leaves text that is no JSON.
pub data Write : Type 0 where
  written refused cut : Write

abbrev pub throws : Write → Bool
throws written = false
throws refused = true
throws cut = true
