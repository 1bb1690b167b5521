-- ===== src/Console/State/Recent.antt =====
-- The items that the cut of a cache cannot reach yet (src/application/ops_console.py).
use xiaoy_md.Prelude.{
  ℕ, suc, ◌+◌, ◌-◌, ◌≤◌, ◌≡◌, ap, sym, ◌∙◌, [], ◌∷◌, ◌++◌, none, some, length, drop, arith,
  length-append, append_assoc,
}
use xiaoy_md.Text.{Str}
use xiaoy_md.Dict.{Dict, lookup, insert}
use xiaoy_md.Dict.Laws.{Distinct}
use xiaoy_md.Console.State.{cache}
use xiaoy_md.Console.State.Trim.{drop-append, lookup-append, cache-drop, cache-Distinct, insert_new}

module _ {V : Type 0} where
  -- d maps k to v, and at most n items stand behind it
  pub record Recent (k : Str) (v : V) (n : ℕ) (d : Dict V) : Type 0 where
    pub before : Dict V
    pub after : Dict V
    pub split : d ≡ before ++ (k, v) ∷ after
    pub few : length after ≤ n
    pub distinct : Distinct d

  pub lookup-Recent : {k : Str} {v : V} {n : ℕ} {d : Dict V} → Recent k v n d → lookup k d ≡ some v
  lookup-Recent {k} {v} r =
      rw (r.split) (lookup-append r.before r.after k v (rw (sym r.split) r.distinct))

  pub Recent-cache :
      {k : Str} {v : V} {n m : ℕ} {d : Dict V} (j : Str) (w : V)
      → n + 2 ≤ m
      → lookup j d ≡ none
      → Recent k v n d
      → Recent k v (suc n) (cache m j w d)
  Recent-cache {k} {v} {n} {m} {d} j w lt h r =
      let longer : insert j w d ≡ r.before ++ (k, v) ∷ (r.after ++ (j, w) ∷ []) =
        insert_new j w d h
        ∙ ap (λ t. t ++ (j, w) ∷ []) r.split
        ∙ append_assoc r.before ((k, v) ∷ r.after) ((j, w) ∷ []) in
      let c = length (insert j w d) - m in
      record {
        before = drop c r.before;
        after = r.after ++ (j, w) ∷ [];
        split =
            cache-drop m j w d r.distinct
            ∙ ap (drop c) longer
            ∙ drop-append c r.before ((k, v) ∷ (r.after ++ (j, w) ∷ [])) (
                omega (
                  arith,
                  ap length longer,
                  length-append r.before ((k, v) ∷ (r.after ++ (j, w) ∷ [])),
                  length-append r.after ((j, w) ∷ []),
                  r.few,
                  lt,
                ));
        few = omega (arith, length-append r.after ((j, w) ∷ []), r.few);
        distinct = cache-Distinct m j w d r.distinct;
      }

  pub Recent-weaken :
      {k : Str} {v : V} {n m : ℕ} {d : Dict V} → n ≤ m → Recent k v n d → Recent k v m d
  Recent-weaken le r = record {
    before = r.before;
    after = r.after;
    split = r.split;
    few = omega (arith, r.few, le);
    distinct = r.distinct;
  }

  pub Recent-cache_self :
      {m : ℕ} (d : Dict V) (k : Str) (v : V)
      → 1 ≤ m
      → Distinct d
      → lookup k d ≡ none
      → Recent k v 0 (cache m k v d)
  Recent-cache_self {m} d k v lt u h =
      let longer = insert_new k v d h in
      let c = length (insert k v d) - m in
      record {
        before = drop c d;
        after = [];
        split =
            cache-drop m k v d u
            ∙ ap (drop c) longer
            ∙ drop-append c d ((k, v) ∷ [])
                (omega (arith, ap length longer, length-append d ((k, v) ∷ []), lt));
        few = omega arith;
        distinct = cache-Distinct m k v d u;
      }
