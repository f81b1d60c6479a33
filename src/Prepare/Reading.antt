-- ===== src/Prepare/Reading.antt =====
-- packages/sdk/src/prepare.ts: what the client keeps after its reads.
use flare_hack.Prelude.{
  ℕ, ◌≡◌, refl, sym, ap, ◌∙◌, inl, inr, Option, none, some, Option-cases, Text, codes,
}
use mathlib.Core.Path.{subst}
use flare_hack.Fees.{DirectMintingFees}
use flare_hack.Prepare.{
  Chain, OneSigClient, Reads, reads_of, second_reads, read_inputs, asset_manager_or,
  asset_manager_fxrp, direct_minting_payment_address, get_nonce, get_executor, get_personal_account,
  mac_or, master_account_controller, read_mac,
}

mac_or-asset_manager :
    (c : OneSigClient) (a : Option Text) → (mac_or c a).1.asset_manager ≡ c.asset_manager
mac_or-asset_manager c none = refl
mac_or-asset_manager c (some a) = refl

-- A read at the MasterAccountController leaves the other address alone.
read_mac-asset_manager :
    {A : Type 0} (chain : Chain) (read : Text → Option A) (c : OneSigClient)
    → (read_mac chain read c).1.asset_manager ≡ c.asset_manager
unfolding master_account_controller
read_mac-asset_manager chain read c = elim (Option-cases c.mac) [
  | inl absent ↦
      rw (absent, master_account_controller)
        (mac_or-asset_manager c
          (chain.get_contract_address_by_name (codes "MasterAccountController")))
  | inr (a, known) ↦ rw (known, master_account_controller) refl
]

asset_manager_or-kept :
    (c : OneSigClient) (found : Option Text) {a : Text}
    → (asset_manager_or c found).0 ≡ some a
    → (asset_manager_or c found).1.asset_manager ≡ some a
asset_manager_or-kept c none e = cc
asset_manager_or-kept c (some b) e = e

asset_manager_fxrp-known :
    (chain : Chain) (c : OneSigClient) {b : Text}
    → c.asset_manager ≡ some b
    → asset_manager_fxrp chain c ≡ (some b, c)
unfolding asset_manager_fxrp
asset_manager_fxrp-known chain c known = simp (known, asset_manager_fxrp) refl

asset_manager_fxrp-kept :
    (chain : Chain) (c : OneSigClient) {a : Text}
    → (asset_manager_fxrp chain c).0 ≡ some a
    → (asset_manager_fxrp chain c).1.asset_manager ≡ some a
unfolding asset_manager_fxrp
asset_manager_fxrp-kept chain c e = elim (Option-cases c.asset_manager) [
  | inl absent ↦
      rw (absent, asset_manager_fxrp)
        (asset_manager_or-kept c (chain.get_contract_address_by_name (codes "AssetManagerFXRP"))
          (rw (absent, asset_manager_fxrp) at e))
  | inr (b, known) ↦
      let same = asset_manager_fxrp-known chain c known in
      ap (λ r. r.1.asset_manager) same ∙ (known ∙ (sym (ap (λ r. r.0) same) ∙ e))
]

-- The client knows the AssetManager that was read, and the payee is the address that it names.
abbrev pub Kept : Chain → Option Reads × OneSigClient → Type 0
Kept chain (none, c) = Unit
Kept chain (some r, c) =
    (c.asset_manager ≡ some r.asset_manager)
    × (chain.direct_minting_payment_address r.asset_manager ≡ some r.destination)

reads_of-Kept :
    (chain : Chain) (c : OneSigClient) (pa am : Text) (to : Option Text)
    (fees : Option DirectMintingFees) (counter : Option ℕ) (executor : Option Text)
    → c.asset_manager ≡ some am
    → chain.direct_minting_payment_address am ≡ to
    → Kept chain (reads_of pa am to fees counter executor, c)
reads_of-Kept chain c pa am (some to) (some fees) (some counter) (some executor) e f = (e, f)
reads_of-Kept chain c pa am (some to) (some fees) (some counter) none e f = tt
reads_of-Kept chain c pa am (some to) (some fees) none executor e f = tt
reads_of-Kept chain c pa am (some to) none counter executor e f = tt
reads_of-Kept chain c pa am none fees counter executor e f = tt

second_reads-Kept :
    (chain : Chain) (pa am : Option Text) (c : OneSigClient)
    → ((a : Text) → am ≡ some a → c.asset_manager ≡ some a)
    → Kept chain (second_reads chain pa am c)
unfolding direct_minting_payment_address get_nonce get_executor
second_reads-Kept chain none am c kept = tt
second_reads-Kept chain (some pa) none c kept = tt
second_reads-Kept chain (some pa) (some am) c kept =
    let nonce = get_nonce chain pa c in
    reads_of-Kept chain (get_executor chain pa nonce.1).1 pa am
      (chain.direct_minting_payment_address am) (chain.read_direct_minting_fees am) nonce.0
      (get_executor chain pa nonce.1).0
      (read_mac-asset_manager chain (λ mac. chain.get_executor mac pa) nonce.1
        ∙ (read_mac-asset_manager chain (λ mac. chain.get_nonce mac pa) c ∙ kept am refl))
      refl

pub read_inputs-Kept :
    (chain : Chain) (xrpl_address : Text) (c : OneSigClient)
    → Kept chain (read_inputs chain xrpl_address c)
unfolding read_inputs
read_inputs-Kept chain xrpl_address c =
    let pa = get_personal_account chain xrpl_address c in
    second_reads-Kept chain pa.0 (asset_manager_fxrp chain pa.1).0 (asset_manager_fxrp chain pa.1).1
      (λ a e. asset_manager_fxrp-kept chain pa.1 e)

-- With the AssetManager known, the payee is read again at the same address.
pub direct_minting_payment_address-kept :
    (chain : Chain) (c : OneSigClient) {a : Text}
    → c.asset_manager ≡ some a
    → (direct_minting_payment_address chain none c).0 ≡ chain.direct_minting_payment_address a
unfolding direct_minting_payment_address
direct_minting_payment_address-kept chain c known =
    rw (asset_manager_fxrp-known chain c known, direct_minting_payment_address) refl

pub Kept-some :
    (chain : Chain) (o : Option Reads × OneSigClient) {r : Reads}
    → Kept chain o
    → o.0 ≡ some r
    → (o.1.asset_manager ≡ some r.asset_manager)
      × (chain.direct_minting_payment_address r.asset_manager ≡ some r.destination)
Kept-some chain (none, c) k e = cc
Kept-some chain (some r, c) k e =
    let same : r ≡ _ = ap (λ o. elim o [ none ↦ r | some x ↦ x ]) e in
    subst
      (λ x.
        (c.asset_manager ≡ some x.asset_manager)
        × (chain.direct_minting_payment_address x.asset_manager ≡ some x.destination))
      same k
