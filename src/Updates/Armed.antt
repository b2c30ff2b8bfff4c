-- ===== src/Updates/Armed.antt =====
-- tools/self_update.py: a switch that the operator turned off is never overridden.
use mathlib.Core.Path.{sym, subst}
use neurahash_miner.Base.{
  [], none, ◌&&◌, inr, not, ◌∷◌, refl, some, inl, Bool, Bool-cases, arith, List, Option, ◌≡◌, true,
  false,
}
use neurahash_miner.Updates.Version.{Text}
use neurahash_miner.Updates.Apply.{eq_text}
use neurahash_miner.Updates.Paths.{mem_text}
use neurahash_miner.Updates.Removal.{
  word_of, mode_of_word, armed_words, disabled_words, reclaim_mode, reclaim_delete,
}

eq_text_sound : (s t : Text) → eq_text s t ≡ true → s ≡ t
eq_text_sound [] [] e = refl
eq_text_sound [] (d ∷ t) e = absurd (ground (arith, e))
eq_text_sound (c ∷ s) [] e = absurd (ground (arith, e))
eq_text_sound (c ∷ s) (d ∷ t) e =
    let q : c ≡ d = ground (arith, e) in
    let r : eq_text s t ≡ true = ground (arith, e) in cc (q, eq_text_sound s t r)

-- no word of a list is among the others
abbrev none_in : List Text → List Text → Bool
none_in [] others = true
none_in (w ∷ ws) others = not (mem_text w others) && none_in ws others

apart :
    (raw : Text) (ws others : List Text)
    → none_in ws others ≡ true
    → mem_text raw ws ≡ true
    → mem_text raw others ≡ false
apart raw [] others k e = absurd (ground (arith, e))
apart raw (w ∷ ws) others k e = elim (Bool-cases (eq_text raw w)) [
  | inl q ↦ subst (λ x. mem_text x others ≡ false) (sym (eq_text_sound raw w q)) (ground (arith, k))
  | inr q ↦ apart raw ws others (ground (arith, k)) (ground (arith, e, q))
]

words_apart : none_in armed_words disabled_words ≡ true
words_apart = refl

word_armed : (raw : Text) → mode_of_word raw ≡ reclaim_delete → mem_text raw disabled_words ≡ false
word_armed raw e = elim (Bool-cases (mem_text raw armed_words)) [
  | inl a ↦ apart raw armed_words disabled_words words_apart a
  | inr a ↦ elim (Bool-cases (mem_text raw disabled_words)) [
    | inl b ↦ absurd (ground (arith, e, a, b))
    | inr b ↦ b
  ]
]

pub reclaim_mode_armed :
    (env override : Option Text)
    → reclaim_mode env override ≡ reclaim_delete
    → mem_text (word_of env) disabled_words ≡ false
unfolding reclaim_mode
reclaim_mode_armed env none e = word_armed (word_of env) e
reclaim_mode_armed env (some []) e = word_armed (word_of env) e
reclaim_mode_armed env (some (c ∷ s)) e =
    elim (Bool-cases (mem_text (word_of env) disabled_words)) [
      | inl b ↦ absurd (ground (arith, e, b))
      | inr b ↦ b
    ]
