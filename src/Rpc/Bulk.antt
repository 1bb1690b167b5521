-- ===== src/Rpc/Bulk.antt =====
-- What a bulk request does with each of its symbols.
use xiaoy_md.Prelude.{
  ℕ, ◌+◌, ◌≡◌, inl, inr, not, ◌&&◌, List, [], ◌∷◌, Option, arith, count_if, Bool-cases,
  Option-cases, if◌then◌else◌,
}
use xiaoy_md.Text.{Str, str_eq, str_eq_iff}
use xiaoy_md.Dict.{mem}
use xiaoy_md.Rpc.{BulkResponse, bulk_loop, handle_subscribe_bulk, service_call}
use xiaoy_md.Service.State.{Ports, Service}
use xiaoy_md.Service.State.Agreement.{IsAligned, subscribe_to_symbol-IsAligned}

-- how often a response names a symbol
abbrev pub occurrences : {R : Type 0} → Str → BulkResponse R → ℕ
occurrences x r = count_if (str_eq x) r.accepted + count_if (λ e. str_eq x e.0) r.rejected

module _ {R S : Type 0} (subscribe_one : Str → S → Option R × S) where
  bulk_loop-occurrences :
      (x : Str) (symbols seen : List Str) (s : S)
      → occurrences x (bulk_loop subscribe_one symbols seen s).0
        ≡ (if mem x symbols && not (mem x seen) then 1 else 0)
  unfolding bulk_loop mem
  bulk_loop-occurrences x [] seen s = ground arith
  bulk_loop-occurrences x (y ∷ symbols) seen s =
      let (failure, s') = subscribe_one y s in
      ground (
        arith,
        str_eq_iff x y,
        str_eq_iff y x,
        bulk_loop-occurrences x symbols seen s,
        bulk_loop-occurrences x symbols (y ∷ seen) s',
      )

  -- A bulk request accepts or rejects every symbol that it names, once and not both, and no other
  -- symbol, whatever the service does.
  pub handle_subscribe_bulk-occurrences :
      (x : Str) (symbols : List Str) (s : S)
      → occurrences x (handle_subscribe_bulk subscribe_one symbols s).0
        ≡ (if mem x symbols then 1 else 0)
  unfolding handle_subscribe_bulk mem
  handle_subscribe_bulk-occurrences x symbols s =
      ground (arith, bulk_loop-occurrences x symbols [] s)

  module _ (Holds : S → Type 0)
      (kept : (symbol : Str) (s : S) → Holds s → Holds (subscribe_one symbol s).1) where
    pub bulk_loop-keeps :
        (symbols seen : List Str) (s : S)
        → Holds s
        → Holds (bulk_loop subscribe_one symbols seen s).1
    unfolding bulk_loop
    bulk_loop-keeps [] seen s h = h
    bulk_loop-keeps (y ∷ symbols) seen s h = elim (Bool-cases (mem y seen)) [
      | inl e ↦ rw (e, bulk_loop) (bulk_loop-keeps symbols seen s h)
      | inr e ↦
          let rest = bulk_loop-keeps symbols (y ∷ seen) (subscribe_one y s).1 (kept y s h) in
          elim (Option-cases (subscribe_one y s).0) [
            | inl f ↦ rw (e, bulk_loop) (rw f rest)
            | inr (reason, f) ↦ rw (e, bulk_loop) (rw f rest)
          ]
    ]

-- A bulk request to the market data service keeps the service's dictionaries on the same ids,
-- whatever the ports do.
pub handle_subscribe_bulk-IsAligned :
    {P : Type 0} (ports : Ports P) (clock : P → ℕ) (symbols : List Str) (s : Service × P)
    → IsAligned s.0
    → IsAligned (handle_subscribe_bulk (service_call ports clock) symbols s).1.0
unfolding handle_subscribe_bulk
handle_subscribe_bulk-IsAligned ports clock symbols s =
    bulk_loop-keeps (service_call ports clock) (λ t. IsAligned t.0)
      (λ symbol t h.
        unfold service_call in subscribe_to_symbol-IsAligned ports (clock t.1) symbol t.0 t.1 h)
      symbols [] s
