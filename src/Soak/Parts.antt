-- ===== src/Soak/Parts.antt =====
-- The soak run reads back the topics of the publisher (scripts/perf/full_feed_soak.py and
-- src/application/services.py).
use xiaoy_md.Prelude.{◌≡◌, refl, false, [], ◌∷◌, ◌++◌, some, arith}
use xiaoy_md.Text.{Str, has_char}
use xiaoy_md.Service.Topic.{topic_of}
use xiaoy_md.Soak.{split_dots, third_and_fourth, subject_parts}

split_dots-one : (s : Str) → has_char b'.' s ≡ false → split_dots s ≡ s ∷ []
unfolding split_dots has_char
split_dots-one [] h = refl
split_dots-one (c ∷ s) h = rw (split_dots-one s (ground arith)) (ground arith)

split_dots-two :
    (a b : Str)
    → has_char b'.' a ≡ false
    → has_char b'.' b ≡ false
    → split_dots (a ++ b'.' ∷ b) ≡ a ∷ b ∷ []
unfolding split_dots has_char
split_dots-two [] b ha hb = rw (split_dots-one b hb) refl
split_dots-two (c ∷ a) b ha hb = rw (split_dots-two a b (ground arith) hb) (ground arith)

-- The soak run takes from the topic of an exchange and a symbol, neither with a dot, exactly that
-- exchange and that symbol.
pub subject_parts-topic_of :
    (exchange base : Str)
    → has_char b'.' exchange ≡ false
    → has_char b'.' base ≡ false
    → subject_parts (topic_of exchange base) ≡ (some exchange, some base)
unfolding subject_parts topic_of split_dots third_and_fourth
subject_parts-topic_of exchange base he hb =
    rw (subject_parts, split_dots-two exchange base he hb) refl
