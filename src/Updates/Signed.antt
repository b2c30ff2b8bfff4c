-- ===== src/Updates/Signed.antt =====
-- tools/self_update.py: what a verified manifest is.
use mathlib.Core.Path.{ap, subst}
use neurahash_miner.Base.{
  refl, inr, inl, none, Option-cases, arith, Bool-cases, ◌==◌, true, ℤ, some, ◌≡◌, List, Option, ℕ,
}
use neurahash_miner.Updates.Version.{Text, parse_version}
use neurahash_miner.Updates.Manifest.{
  blank_signature, bad_stamp, is_object, no_signature, no_stamp, stamp, signed_by, signature_test,
  body_of, is_commit, verified, fields_test, SignedBody, signature_field, key_test, parses, Stamp,
  shape_test, verify_manifest, Signature, ReleaseKey, Manifest,
}

-- A manifest with a version, a commit that is a hex id and a stamp, whose signature recovers over
-- its body to the pinned key.
pub record IsSigned (ext : ReleaseKey) (pubkey : ℕ) (m : Manifest) : Type 0 where
  pub version : Text
  pub numbers : List ℕ
  pub commit : Text
  pub ts : ℤ
  pub sig : ℕ
  pub signer : ℕ
  pub body : SignedBody
  pub has_version : m.version ≡ some version
  pub version_parses : parse_version version ≡ some numbers
  pub has_commit : m.git_commit ≡ some commit
  pub commit_hex : is_commit commit ≡ true
  pub has_stamp : m.published_ts ≡ stamp ts
  pub has_signature : m.signature ≡ signed_by sig
  pub has_body : body_of m version commit (stamp ts) ≡ some body
  pub recovers : ext.recover body sig ≡ some signer
  pub is_pinned : (ext.lower signer == ext.lower pubkey) ≡ true

module _ (ext : ReleaseKey) (pubkey : ℕ) where
  open ext use {recover, lower}

  key_inv :
      (o : Option ℕ) (rec : ℕ)
      → key_test ext pubkey o ≡ verified rec
      → (o ≡ some rec) × ((lower rec == lower pubkey) ≡ true)
  key_inv none rec e = absurd (ground (arith, e))
  key_inv (some r) rec e = elim (Bool-cases (lower r == lower pubkey)) [
    | inr k ↦ absurd (ground (arith, e, k))
    | inl k ↦
        let same : r ≡ rec = ground (arith, e, k) in
        (ap some same, subst (λ x. (lower x == lower pubkey) ≡ true) same k)
  ]

  signature_inv :
      (sig : ℕ) (o : Option SignedBody) (rec : ℕ)
      → signature_test ext pubkey sig o ≡ verified rec
      → (body : SignedBody) × (o ≡ some body)
        × (key_test ext pubkey (recover body sig) ≡ verified rec)
  signature_inv sig none rec e = absurd (ground (arith, e))
  signature_inv sig (some body) rec e = (body, refl, e)

  stamp_inv :
      (m : Manifest) (v commit : Text) (s : Stamp) (body : SignedBody)
      → body_of m v commit s ≡ some body
      → (ts : ℤ) × (s ≡ stamp ts)
  stamp_inv m v commit no_stamp body e = absurd (ground (arith, e))
  stamp_inv m v commit bad_stamp body e = absurd (ground (arith, e))
  stamp_inv m v commit (stamp ts) body e = (ts, refl)

  shape_inv :
      (m : Manifest) (v commit : Text) (sig rec : ℕ)
      → shape_test ext pubkey m v commit sig ≡ verified rec
      → (is_commit commit ≡ true)
        × (parses (some v) ≡ true)
        × (signature_test ext pubkey sig (body_of m v commit m.published_ts) ≡ verified rec)
  shape_inv m v commit sig rec e = elim (Bool-cases (is_commit commit)) [
    | inr a ↦ absurd (ground (arith, e, a))
    | inl a ↦ elim (Bool-cases (parses (some v))) [
      | inr b ↦ absurd (ground (arith, e, a, b))
      | inl b ↦ elim (Bool-cases (is_object m.config)) [
        | inr c ↦ absurd (ground (arith, e, a, b, c))
        | inl c ↦ elim (Bool-cases (is_object m.files)) [
          | inr d ↦ absurd (ground (arith, e, a, b, c, d))
          | inl d ↦ elim (Bool-cases (parses m.min_client_version)) [
            | inr f ↦ absurd (ground (arith, e, a, b, c, d, f))
            | inl f ↦ (a, b, ground (arith, e, a, b, c, d, f))
          ]
        ]
      ]
    ]
  ]

  parses_inv : (v : Text) → parses (some v) ≡ true → (w : List ℕ) × (parse_version v ≡ some w)
  parses_inv v e = elim (Option-cases (parse_version v)) [
    | inl p ↦ absurd (ground (arith, e, p))
    | inr (w, p) ↦ (w, p)
  ]

  field_inv :
      (m : Manifest) (v commit : Text) (s : Signature) (rec : ℕ)
      → signature_field ext pubkey m v commit s ≡ verified rec
      → (sig : ℕ) × (s ≡ signed_by sig) × (shape_test ext pubkey m v commit sig ≡ verified rec)
  field_inv m v commit no_signature rec e = absurd (ground (arith, e))
  field_inv m v commit blank_signature rec e = absurd (ground (arith, e))
  field_inv m v commit (signed_by sig) rec e = (sig, refl, e)

  fields_inv :
      (m : Manifest) (ov oc : Option Text) (s : Stamp) (rec : ℕ)
      → fields_test ext pubkey m ov oc s ≡ verified rec
      → (v : Text) × (ov ≡ some v)
        × (commit : Text) × (oc ≡ some commit)
        × (signature_field ext pubkey m v commit m.signature ≡ verified rec)
  fields_inv m none oc s rec e = absurd (ground (arith, e))
  fields_inv m (some v) none s rec e = absurd (ground (arith, e))
  fields_inv m (some v) (some c) no_stamp rec e = absurd (ground (arith, e))
  fields_inv m (some v) (some c) bad_stamp rec e = (v, refl, c, refl, e)
  fields_inv m (some v) (some c) (stamp ts) rec e = (v, refl, c, refl, e)

  pub verify_manifest-IsSigned :
      (m : Manifest) (rec : ℕ) → verify_manifest ext pubkey m ≡ verified rec → IsSigned ext pubkey m
  unfolding verify_manifest
  verify_manifest-IsSigned m rec e =
      let (v, hv, commit, hc, f) = fields_inv m m.version m.git_commit m.published_ts rec e in
      let (sig, hs, g) = field_inv m v commit m.signature rec f in
      let (hex, p, h) = shape_inv m v commit sig rec g in
      let (body, hb, k) = signature_inv sig (body_of m v commit m.published_ts) rec h in
      let (ts, ht) = stamp_inv m v commit m.published_ts body hb in
      let (r, pinned) = key_inv (recover body sig) rec k in
      let (w, parsed) = parses_inv v p in
      record {
        version = v;
        numbers = w;
        commit = commit;
        ts = ts;
        sig = sig;
        signer = rec;
        body = body;
        has_version = hv;
        version_parses = parsed;
        has_commit = hc;
        commit_hex = hex;
        has_stamp = ht;
        has_signature = hs;
        has_body = subst (λ s. body_of m v commit s ≡ some body) ht hb;
        recovers = r;
        is_pinned = pinned;
      }
