-- ===== src/Fees.antt =====
-- packages/sdk/src/fassets.ts: what an XRPL payment must carry.
use flare_hack.Prelude.{ℕ, ◌+◌, ◌*◌, ◌/◌, ◌≤◌, ◌≡◌, refl, arith, ltb, if◌then◌else◌}

pub record DirectMintingFees : Type 0 where
  pub executor_fee_uba : ℕ
  pub fee_bips : ℕ
  pub minimum_fee_uba : ℕ

pub record PaymentBreakdown : Type 0 where
  pub net_mint_uba : ℕ
  pub minting_fee_uba : ℕ
  pub executor_fee_uba : ℕ
  pub total_uba : ℕ

abbrev pub minting_fee : ℕ → DirectMintingFees → ℕ
minting_fee net fees =
    if ltb fees.minimum_fee_uba (net * fees.fee_bips / 10000)
    then net * fees.fee_bips / 10000
    else fees.minimum_fee_uba

-- `computePaymentAmount`, on amounts that are not negative
unfoldable pub compute_payment_amount : ℕ → DirectMintingFees → PaymentBreakdown
compute_payment_amount net fees = record {
  net_mint_uba = net;
  minting_fee_uba = minting_fee net fees;
  executor_fee_uba = fees.executor_fee_uba;
  total_uba = net + minting_fee net fees + fees.executor_fee_uba;
}

-- The payment is the amount to mint and the two fees; the minting fee is the smallest that is both
-- the minimum fee at least and the proportional fee, rounded down, at least.
pub compute_payment_amount-covers :
    (net bound : ℕ) (fees : DirectMintingFees)
    → fees.minimum_fee_uba ≤ bound
    → net * fees.fee_bips ≤ bound * 10000 + 9999
    → let p = compute_payment_amount net fees in
      (p.total_uba ≡ net + p.minting_fee_uba + fees.executor_fee_uba)
      × (fees.minimum_fee_uba ≤ p.minting_fee_uba)
      × (net * fees.fee_bips ≤ p.minting_fee_uba * 10000 + 9999)
      × (p.minting_fee_uba ≤ bound)
unfolding compute_payment_amount
compute_payment_amount-covers net bound fees low enough =
    (refl, ground arith, ground arith, ground arith)
