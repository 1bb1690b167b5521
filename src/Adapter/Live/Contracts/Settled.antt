-- ===== src/Adapter/Live/Contracts/Settled.antt =====
-- When the polls for contracts end (src/infrastructure/ctp_live_connector.py).
use xiaoy_md.Prelude.{
  ℕ, ◌+◌, ◌≤◌, ◌<◌, ◌≡◌, ◌⊎◌, refl, ap, sym, ◌∙◌, inl, inr, true, List, [], ◌∷◌, ◌++◌, Option, none,
  some, arith, length, length-append, append_assoc, append-nil, ==_iff, Bool-cases,
}
use xiaoy_md.Text.{Str, is_empty}
use xiaoy_md.Dict.{add, mem, add_each}
use xiaoy_md.Adapter.Live.Contracts.{
  Poll, on_contracts, after_poll, Wait, initial_wait, is_same_len, next_wait, is_settled, poll_loop,
}

-- the names behind a row of polls
abbrev pub after_all : List Poll → List Str → List Str
after_all [] syms = syms
after_all (p ∷ polls) syms = after_all polls (after_poll p syms)

after_all-append :
    (a b : List Poll) (syms : List Str) → after_all (a ++ b) syms ≡ after_all b (after_all a syms)
after_all-append [] b syms = refl
after_all-append (p ∷ a) b syms = after_all-append a b (after_poll p syms)

length-add : (vt : Str) (s : List Str) → (add vt s ≡ s) ⊎ (length s < length (add vt s))
unfolding add
length-add vt s = elim (Bool-cases (mem vt s)) [
  | inl e ↦ inl (rw (add, e) refl)
  | inr e ↦ inr (rw (add, e) (omega (arith, length-append s (vt ∷ []))))
]

-- a set that grew stays longer
abbrev Grew : List Str → List Str → Type 0
Grew s t = (t ≡ s) ⊎ (length s < length t)

Grew-trans : (a b c : List Str) → Grew a b → Grew b c → Grew a c
Grew-trans a b c (inl e) g = rw (← e) g
Grew-trans a b c (inr l) (inl e) = inr (rw e l)
Grew-trans a b c (inr l) (inr m) = inr (omega arith)

add_each-Grew : (names s : List Str) → Grew s (add_each names s)
unfolding add_each
add_each-Grew [] s = inl refl
add_each-Grew (vt ∷ names) s =
    Grew-trans s (add vt s) (add_each names (add vt s)) (length-add vt s)
      (add_each-Grew names (add vt s))

on_contracts-Grew : (names s : List Str) → Grew s (on_contracts names s)
unfolding on_contracts
on_contracts-Grew [] s = inl refl
on_contracts-Grew (vt ∷ names) s = elim (Bool-cases (is_empty vt)) [
  | inl e ↦ rw (on_contracts, e) (on_contracts-Grew names s)
  | inr e ↦
      rw (on_contracts, e)
        (Grew-trans s (add vt s) (on_contracts names (add vt s)) (length-add vt s)
          (on_contracts-Grew names (add vt s)))
]

after_poll-Grew : (p : Poll) (s : List Str) → Grew s (after_poll p s)
unfolding after_poll
after_poll-Grew p s =
    Grew-trans s (on_contracts p.events s) (add_each p.contracts (on_contracts p.events s))
      (on_contracts-Grew p.events s) (add_each-Grew p.contracts (on_contracts p.events s))

same_length : (s t : List Str) → Grew s t → length s ≡ length t → t ≡ s
same_length s t (inl e) h = e
same_length s t (inr l) h = absurd (omega (arith, l, h))

-- the polls that were made, and the last ones of them, which added nothing
record Quiet (start : List Str) (made : List Poll) (w : Wait) (syms : List Str) : Type 0 where
  pub all : after_all made start ≡ syms
  pub before : List Poll
  pub recent : List Poll
  pub split : made ≡ before ++ recent
  pub count : length recent ≡ w.stable_cycles
  pub since : after_all before start ≡ syms
  pub len : (w.last_len ≡ none) ⊎ (w.last_len ≡ some (length syms))

after_one :
    (start : List Str) (made : List Poll) (p : Poll) {syms : List Str}
    → after_all made start ≡ syms
    → after_all (made ++ p ∷ []) start ≡ after_poll p syms
after_one start made p e = after_all-append made (p ∷ []) start ∙ ap (after_poll p) e

same_len : {o : Option ℕ} (m n : ℕ) → is_same_len o n ≡ true → (o ≡ none) ⊎ (o ≡ some m) → m ≡ n
unfolding is_same_len
same_len m n h (inl e) = absurd (cc (sym h ∙ ap (λ o. is_same_len o n) e))
same_len m n h (inr e) = (==_iff m n).0 (sym (ap (λ o. is_same_len o n) e) ∙ h)

settled_syms :
    (w : Wait) (p : Poll) (syms : List Str) (start : List Str) (made : List Poll)
    → Quiet start made w syms
    → is_same_len w.last_len (length (after_poll p syms)) ≡ true
    → after_poll p syms ≡ syms
settled_syms w p syms start made q h =
    same_length syms (after_poll p syms) (after_poll-Grew p syms)
      (same_len (length syms) (length (after_poll p syms)) h q.len)

next-Quiet :
    (w : Wait) (p : Poll) (syms : List Str) (start : List Str) (made : List Poll)
    → Quiet start made w syms
    → Quiet start (made ++ p ∷ []) (next_wait (length (after_poll p syms)) w) (after_poll p syms)
unfolding next_wait
next-Quiet w p syms start made q =
    elim (Bool-cases (is_same_len w.last_len (length (after_poll p syms)))) [
      | inl h ↦
          rw (next_wait, h)
            (let e = settled_syms w p syms start made q h in
              record {
                all = after_one start made p q.all;
                before = q.before;
                recent = q.recent ++ p ∷ [];
                split = ap (λ t. t ++ p ∷ []) q.split ∙ append_assoc q.before q.recent (p ∷ []);
                count = omega (arith, length-append q.recent (p ∷ []), q.count);
                since = q.since ∙ sym e;
                len = rw e q.len;
              })
      | inr h ↦
          rw (next_wait, h)
            (record {
              all = after_one start made p q.all;
              before = made ++ p ∷ [];
              recent = [];
              split = sym (append-nil (made ++ p ∷ []));
              count = refl;
              since = after_one start made p q.all;
              len = inr refl;
            })
    ]

-- how the loop ended: at the deadline, or because nothing came any more
pub data Ended (start : List Str) (polls : List Poll) (syms : List Str) : List Poll → Type 0 where
  at_deadline : after_all polls start ≡ syms → Ended start polls syms []
  nothing_new :
      (before recent rest : List Poll)
      → polls ≡ (before ++ recent) ++ rest
      → 5 ≤ length recent
      → 0 < length syms
      → after_all before start ≡ syms
      → after_all (before ++ recent) start ≡ syms
      → Ended start polls syms rest

settled_parts :
    (n : ℕ) (w : Wait)
    → is_settled n w ≡ true
    → (is_same_len w.last_len n ≡ true) × (5 ≤ w.stable_cycles + 1) × (0 < n)
unfolding is_settled
settled_parts n w h = (ground arith, ground arith, ground arith)

ends_here :
    (w : Wait) (p : Poll) (polls : List Poll) (syms start : List Str) (made : List Poll)
    → Quiet start made w syms
    → is_settled (length (after_poll p syms)) w ≡ true
    → Ended start (made ++ p ∷ polls) (after_poll p syms) polls
ends_here w p polls syms start made q h =
    let (same, cycles, some_name) = settled_parts (length (after_poll p syms)) w h in
    let e = settled_syms w p syms start made q same in
    let made_split : made ++ p ∷ [] ≡ q.before ++ (q.recent ++ p ∷ []) =
      ap (λ t. t ++ p ∷ []) q.split ∙ append_assoc q.before q.recent (p ∷ []) in
    nothing_new q.before (q.recent ++ p ∷ []) polls
      (sym (append_assoc made (p ∷ []) polls) ∙ ap (λ t. t ++ polls) made_split)
      (omega (arith, cycles, length-append q.recent (p ∷ []), q.count)) some_name (q.since ∙ sym e)
      (ap (λ t. after_all t start) (sym made_split) ∙ after_one start made p q.all)

poll_loop-from :
    (polls : List Poll) (w : Wait) (syms start : List Str) (made : List Poll)
    → Quiet start made w syms
    → Ended start (made ++ polls) (poll_loop polls w syms).0 (poll_loop polls w syms).1
unfolding poll_loop
poll_loop-from [] w syms start made q =
    at_deadline (ap (λ t. after_all t start) (append-nil made) ∙ q.all)
poll_loop-from (p ∷ polls) w syms start made q =
    elim (Bool-cases (is_settled (length (after_poll p syms)) w)) [
      | inl h ↦ rw (poll_loop, h) (ends_here w p polls syms start made q h)
      | inr h ↦
          rw (poll_loop, h)
            (rw (← append_assoc made (p ∷ []) polls) (
              poll_loop-from polls (next_wait (length (after_poll p syms)) w) (after_poll p syms)
                start (made ++ p ∷ []) (next-Quiet w p syms start made q)))
    ]

-- The polls for contracts end at the deadline with all names that came, or before it with at least
-- one name, and then the last five polls, at least, brought no name that was not there before.
pub poll_loop-Ended :
    (polls : List Poll) (early : List Str)
    → Ended early polls
        (poll_loop polls initial_wait early).0
        (poll_loop polls initial_wait early).1
unfolding initial_wait
poll_loop-Ended polls early = poll_loop-from polls initial_wait early early [] (record {
  all = refl;
  before = [];
  recent = [];
  split = refl;
  count = refl;
  since = refl;
  len = inl refl;
})
