-- ===== src/Updates/Manifest.antt =====
-- tools/self_update.py: a release manifest, what its signature covers, its verification, and the
-- publish gate. Of a manifest's JSON only what the code tells apart is kept.
use neurahash_miner.Base.{
  ℕ, Bool, true, false, not, ◌&&◌, ◌||◌, ◌==◌, leb, if◌then◌else◌, Option, none, some, List, [],
  ◌∷◌, length, ℤ,
}
use neurahash_miner.Updates.Version.{Text, parse_version, version_lt}

-- a value inside `config`
pub data Raw : Type 0 where
  text : Text → Raw
  flag : Bool → Raw
  other : ℕ → Raw

-- the keys of `config` and of its `protocol`: the allowed ones, and any other
pub data ConfigKey : Type 0 where
  merge_url content_url corpus_store corpus_sha : ConfigKey
  other_key : ℕ → ConfigKey

pub data ProtocolKey : Type 0 where
  signed_put contrib_sig_version : ProtocolKey
  other_protocol_key : ℕ → ProtocolKey

-- an entry of `config`: `protocol` holds entries of its own, or is no object
pub data Entry : Type 0 where
  entry : ConfigKey → Raw → Entry
  protocol : List (ProtocolKey × Raw) → Entry
  protocol_not_object : Entry

-- an optional field that must be an object
pub data Field (A : Type 0) : Type 0 where
  absent not_object : Field A
  object : A → Field A

pub data Stamp : Type 0 where
  no_stamp bad_stamp : Stamp
  stamp : ℤ → Stamp

pub data Signature : Type 0 where
  no_signature blank_signature : Signature
  signed_by : ℕ → Signature

-- A manifest that is a JSON object. `version` and `git_commit` are the texts of their values, and
-- none where the key is missing; `min_client_version` is none where it is missing or null.
pub record Manifest : Type 0 where
  pub version : Option Text
  pub git_commit : Option Text
  pub published_ts : Stamp
  pub signature : Signature
  pub min_client_version : Option Text
  pub config : Field (List Entry)
  pub files : Field (List (Text × Text))

-- what the signature covers: an optional field that declares nothing is left out
pub record SignedBody : Type 0 where
  pub version : Text
  pub git_commit : Text
  pub published_ts : ℤ
  pub min_client_version : Option Text
  pub config : List Entry
  pub files : List (Text × Text)

pub data ManifestFault : Type 0 where
  missing_field missing_signature commit_not_hex version_malformed config_not_object : ManifestFault
  files_not_object min_version_malformed fields_malformed recovery_failed wrong_key : ManifestFault

pub data Verified : Type 0 where
  verified : ℕ → Verified
  refused : ManifestFault → Verified

-- What the code takes from eth_account and `str.lower`: the signer of a body.
pub record ReleaseKey : Type 0 where
  pub recover : SignedBody → ℕ → Option ℕ
  pub lower : ℕ → ℕ

abbrev pub is_hex : ℕ → Bool
is_hex c = (leb 48 c && leb c 57) || ((leb 97 c && leb c 102) || (leb 65 c && leb c 70))

abbrev pub all_hex : Text → Bool
all_hex [] = true
all_hex (c ∷ s) = is_hex c && all_hex s

-- `$` also matches before a newline at the end
abbrev pub without_newline : Text → Text
without_newline [] = []
without_newline (c ∷ []) = if c == 10 then [] else c ∷ []
without_newline (c ∷ (d ∷ s)) = c ∷ without_newline (d ∷ s)

-- `_COMMIT_RE.match`
unfoldable pub is_commit : Text → Bool
is_commit s =
    let run = without_newline s in all_hex run && (leb 7 (length run) && leb (length run) 64)

abbrev pub unless_empty : Option Text → Option Text
unless_empty none = none
unless_empty (some []) = none
unless_empty (some (c ∷ s)) = some (c ∷ s)

abbrev pub declared : {A : Type 0} → Field (List A) → List A
declared (object xs) = xs
declared _ = []

abbrev pub body_of : Manifest → Text → Text → Stamp → Option SignedBody
body_of m v commit (stamp ts) = some record {
  version = v;
  git_commit = commit;
  published_ts = ts;
  min_client_version = unless_empty m.min_client_version;
  config = declared m.config;
  files = declared m.files;
}
body_of m v commit _ = none

abbrev pub is_object : {A : Type 0} → Field A → Bool
is_object not_object = false
is_object _ = true

abbrev pub parses : Option Text → Bool
parses none = true
parses (some v) = elim (parse_version v) [ none ↦ false | some _ ↦ true ]

module _ (ext : ReleaseKey) where
  open ext use {recover, lower}

  abbrev pub key_test : ℕ → Option ℕ → Verified
  key_test pubkey none = refused recovery_failed
  key_test pubkey (some rec) = if lower rec == lower pubkey then verified rec else refused wrong_key

  abbrev pub signature_test : ℕ → ℕ → Option SignedBody → Verified
  signature_test pubkey sig none = refused fields_malformed
  signature_test pubkey sig (some body) = key_test pubkey (recover body sig)

  -- the tests of a manifest that has its fields and a signature
  abbrev pub shape_test : ℕ → Manifest → Text → Text → ℕ → Verified
  shape_test pubkey m v commit sig =
      if not (is_commit commit)
      then refused commit_not_hex
      else if not (parses (some v))
      then refused version_malformed
      else if not (is_object m.config)
      then refused config_not_object
      else if not (is_object m.files)
      then refused files_not_object
      else if not (parses m.min_client_version)
      then refused min_version_malformed
      else signature_test pubkey sig (body_of m v commit m.published_ts)

  abbrev pub signature_field : ℕ → Manifest → Text → Text → Signature → Verified
  signature_field pubkey m v commit no_signature = refused missing_field
  signature_field pubkey m v commit blank_signature = refused missing_signature
  signature_field pubkey m v commit (signed_by sig) = shape_test pubkey m v commit sig

  abbrev pub fields_test : ℕ → Manifest → Option Text → Option Text → Stamp → Verified
  fields_test pubkey m none commit ts = refused missing_field
  fields_test pubkey m (some v) none ts = refused missing_field
  fields_test pubkey m (some v) (some commit) no_stamp = refused missing_field
  fields_test pubkey m (some v) (some commit) _ = signature_field pubkey m v commit m.signature

  unfoldable pub verify_manifest : ℕ → Manifest → Verified
  verify_manifest pubkey m = fields_test pubkey m m.version m.git_commit m.published_ts

-- `publish_block_reason`: whether this client must not publish
abbrev pub below : List ℕ → Option (List ℕ) → Bool
below need none = true
below need (some have) = version_lt have need

abbrev pub local_parse : Option Text → Option (List ℕ)
local_parse none = none
local_parse (some v) = parse_version v

unfoldable pub publish_block : Option Text → Option Text → Bool
publish_block none local_version = false
publish_block (some mcv) local_version = elim (parse_version mcv) [
  | none ↦ false
  | some need ↦ below need (local_parse local_version)
]
