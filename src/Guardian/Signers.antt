-- ===== src/Guardian/Signers.antt =====
-- neurahash/guardian_halt.py: who counts towards the threshold.
use neurahash_miner.Guardian.Defs.{
  normal_all, built, guardian_set, add_signer, GuardianSet, Recovery, distinct_signers,
}
use neurahash_miner.Base.{
  sorted_set-IsAscending, length, ◌≤ℤ◌, pos, ℤ, tail-IsAscending, sym, Above-weaken, if_intro, ◌∙◌,
  arith, ◌≡◌, contains, if◌then◌else◌, ℕ, Bool, false, ◌||◌, ◌&&◌, ◌==◌, List, [], ◌∷◌, Option,
  none, some, IsAscending, contains-insert_set, insert_set-IsAscending, ascending_ext, Above,
}

module _ {P : Type 0} (ext : Recovery P) where
  open ext use {normal, recover}

  abbrev pub signed_by : ℕ → Option ℕ → Bool
  signed_by a none = false
  signed_by a (some b) = a == normal b

  -- some signature recovers to the address
  unfoldable pub has_signed : P → List ℕ → ℕ → Bool
  has_signed p [] a = false
  has_signed p (sig ∷ sigs) a = signed_by a (recover p sig) || has_signed p sigs a

  -- the members some signature recovers to
  unfoldable pub signing_members : P → List ℕ → List ℕ → List ℕ
  signing_members p sigs [] = []
  signing_members p sigs (a ∷ as') =
      if has_signed p sigs a then a ∷ signing_members p sigs as' else signing_members p sigs as'

  contains-add_signer :
      (a : ℕ) (members : List ℕ) (o : Option ℕ) (signers : List ℕ) (b : Bool)
      → contains a signers ≡ (contains a members && b)
      → contains a (add_signer ext members o signers) ≡ (contains a members && (signed_by a o || b))
  contains-add_signer a members none signers b e = e
  contains-add_signer a members (some c) signers b e =
      ground (arith, e, contains-insert_set a (normal c) signers)

  contains-distinct_signers :
      (gs : GuardianSet) (p : P) (sigs : List ℕ) (a : ℕ)
      → contains a (distinct_signers ext gs p sigs) ≡ (contains a gs.members && has_signed p sigs a)
  unfolding distinct_signers has_signed contains
  contains-distinct_signers gs p [] a = ground arith
  contains-distinct_signers gs p (sig ∷ sigs) a =
      contains-add_signer a gs.members (recover p sig) (distinct_signers ext gs p sigs)
        (has_signed p sigs a) (contains-distinct_signers gs p sigs a)

  add_signer-IsAscending :
      (members : List ℕ) (o : Option ℕ) (signers : List ℕ)
      → IsAscending signers
      → IsAscending (add_signer ext members o signers)
  add_signer-IsAscending members none signers h = h
  add_signer-IsAscending members (some c) signers h =
      if_intro IsAscending (contains (normal c) members)
        (insert_set-IsAscending (normal c) signers h) h

  distinct_signers-IsAscending :
      (gs : GuardianSet) (p : P) (sigs : List ℕ) → IsAscending (distinct_signers ext gs p sigs)
  unfolding distinct_signers
  distinct_signers-IsAscending gs p [] = tt
  distinct_signers-IsAscending gs p (sig ∷ sigs) =
      add_signer-IsAscending gs.members (recover p sig) (distinct_signers ext gs p sigs)
        (distinct_signers-IsAscending gs p sigs)

  contains-signing_members :
      (p : P) (sigs : List ℕ) (a : ℕ) (as' : List ℕ)
      → contains a (signing_members p sigs as') ≡ (contains a as' && has_signed p sigs a)
  unfolding signing_members contains
  contains-signing_members p sigs a [] = ground arith
  contains-signing_members p sigs a (b ∷ bs) = ground (arith, contains-signing_members p sigs a bs)

  signing_members-Above :
      (p : P) (sigs : List ℕ) (b : ℕ) (as' : List ℕ)
      → Above b as'
      → Above b (signing_members p sigs as')
  unfolding signing_members
  signing_members-Above p sigs b [] h = tt
  signing_members-Above p sigs b (a ∷ as') (h, k) =
      if_intro (Above b) (has_signed p sigs a) (h, signing_members-Above p sigs a as' k)
        (signing_members-Above p sigs b as' (Above-weaken b a as' h k))

  signing_members-IsAscending :
      (p : P) (sigs : List ℕ) (as' : List ℕ)
      → IsAscending as'
      → IsAscending (signing_members p sigs as')
  unfolding signing_members
  signing_members-IsAscending p sigs [] h = tt
  signing_members-IsAscending p sigs (a ∷ as') h =
      if_intro IsAscending (has_signed p sigs a) (signing_members-Above p sigs a as' h)
        (signing_members-IsAscending p sigs as' (tail-IsAscending a as' h))

  -- Over a set of members, the distinct signers of a list of signatures are exactly the members
  -- that some of the signatures recovers to: a repeated signature and one of a stranger add nobody.
  pub distinct_signers_exact :
      (gs : GuardianSet) (p : P) (sigs : List ℕ)
      → IsAscending gs.members
      → distinct_signers ext gs p sigs ≡ signing_members p sigs gs.members
  distinct_signers_exact gs p sigs h =
      ascending_ext (distinct_signers ext gs p sigs) (signing_members p sigs gs.members)
        (distinct_signers-IsAscending gs p sigs) (signing_members-IsAscending p sigs gs.members h)
        (λ a.
          contains-distinct_signers gs p sigs a
          ∙ sym (contains-signing_members p sigs a gs.members))

  -- A guardian set that builds has a set of members, and a threshold from one to their number.
  pub guardian_set_sound :
      (addresses : List ℕ) (k : ℤ) (gs : GuardianSet)
      → guardian_set ext addresses k ≡ built gs
      → IsAscending gs.members × (pos 1 ≤ℤ gs.threshold) × (gs.threshold ≤ℤ pos (length gs.members))
  unfolding guardian_set
  guardian_set_sound addresses k gs e =
      ground (arith, e, sorted_set-IsAscending (normal_all ext addresses))
