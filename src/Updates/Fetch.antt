-- ===== src/Updates/Fetch.antt =====
-- tools/self_update.py: the best verified manifest of the mirrors. What a mirror is and what it said
-- in words is left out.
use neurahash_miner.Base.{
  ltb_ℤ, [], any_of, ◌&&◌, ◌∷◌, eq_ℤ, true, List, if◌then◌else◌, none, pos, not, some, ℕ, false, ℤ,
  Option, Bool,
}
use neurahash_miner.Updates.Version.{Text, is_forward}
use neurahash_miner.Updates.Manifest.{
  stamp, Stamp, ReleaseKey, Manifest, verify_manifest, verified, refused,
}

-- what a mirror answers: nothing that parses, JSON that is no object, or a manifest
pub data Answer : Type 0 where
  unreachable no_object : Answer
  served : Manifest → Answer

pub record Fetch : Type 0 where
  pub manifest : Option Manifest
  pub any_parsed : Bool

abbrev pub published : Stamp → ℤ
published (stamp ts) = ts
published _ = pos 0

abbrev pub version_text : Manifest → Text
version_text m = elim m.version [ none ↦ [] | some v ↦ v ]

-- the replay floor; a floor of zero is none
abbrev pub replayed : ℤ → Manifest → Bool
replayed floor m = not (eq_ℤ floor (pos 0)) && ltb_ℤ (published m.published_ts) floor

abbrev pub take_if : Option Bool → Manifest → Option Manifest → Option Manifest
take_if none m best = best
take_if (some false) m best = best
take_if (some true) m best = some m

-- `best is None or is_forward(v, best["version"])`, where a version that is unusable is rejected
abbrev pub better : Manifest → Option Manifest → Option Manifest
better m none = some m
better m (some best) = take_if (is_forward (version_text m) (version_text best)) m (some best)

module _ (ext : ReleaseKey) where
  -- verified, and not replayed
  abbrev pub is_good : ℕ → ℤ → Manifest → Bool
  is_good pubkey floor m = elim (verify_manifest ext pubkey m) [
    | refused _ ↦ false
    | verified _ ↦ not (replayed floor m)
  ]

  abbrev pub consider : ℕ → ℤ → Answer → Option Manifest → Option Manifest
  consider pubkey floor unreachable best = best
  consider pubkey floor no_object best = best
  consider pubkey floor (served m) best = if is_good pubkey floor m then better m best else best

  unfoldable pub best_of : ℕ → ℤ → List Answer → Option Manifest → Option Manifest
  best_of pubkey floor [] best = best
  best_of pubkey floor (a ∷ answers) best =
      best_of pubkey floor answers (consider pubkey floor a best)

  abbrev pub parsed : Answer → Bool
  parsed unreachable = false
  parsed _ = true

  unfoldable pub fetch_best_manifest : ℕ → ℤ → List Answer → Fetch
  fetch_best_manifest pubkey floor answers = record {
    manifest = best_of pubkey floor answers none;
    any_parsed = any_of parsed answers;
  }
