-- ===== src/Updates/Config.antt =====
-- tools/self_update.py: the allowlist of a manifest's `config`, and how it sets defaults in the
-- environment. The environment's variables are numbered; what is said of an ignored key is left out.
use neurahash_miner.Base.{
  insert, ◌==◌, lookup, contains, [], if◌then◌else◌, none, length, ◌||◌, false, true, some, leb,
  ◌&&◌, ◌∷◌, Bool, Option, ℕ, List, Dict,
}
use neurahash_miner.Updates.Version.{Text, strip}
use neurahash_miner.Updates.Manifest.{
  corpus_sha, corpus_store, contrib_sig_version, content_url, protocol_not_object, protocol,
  merge_url, flag, signed_put, text, other_key, entry, other_protocol_key, ConfigKey, ProtocolKey,
  Entry, Raw, all_hex,
}
use neurahash_miner.Updates.Apply.{lower_text}

abbrev pub merge_url_env : ℕ
merge_url_env = 0

abbrev pub content_url_env : ℕ
content_url_env = 1

abbrev pub content_store_env : ℕ
content_store_env = 2

abbrev pub corpus_sha_env : ℕ
corpus_sha_env = 3

abbrev pub signed_put_env : ℕ
signed_put_env = 4

abbrev pub contrib_sig_env : ℕ
contrib_sig_env = 5

abbrev pub is_alnum : ℕ → Bool
is_alnum c = (leb 48 c && leb c 57) || ((leb 97 c && leb c 122) || (leb 65 c && leb c 90))

-- the characters of a url besides letters and digits
abbrev pub url_marks : List ℕ
url_marks =
    46 ∷ 95 ∷ 126 ∷ 58 ∷ 47 ∷ 63 ∷ 35 ∷ 91 ∷ 93 ∷ 33 ∷ 36 ∷ 38 ∷ 39 ∷ 40 ∷ 41 ∷ 42 ∷ 43 ∷ 44 ∷ 59
    ∷ 61 ∷ 37 ∷ 45 ∷ []

abbrev pub all_url_chars : Text → Bool
all_url_chars [] = true
all_url_chars (c ∷ s) = (is_alnum c || contains c url_marks) && all_url_chars s

-- the rest of a text after a prefix
abbrev pub after_prefix : Text → Text → Option Text
after_prefix [] s = some s
after_prefix (c ∷ p) [] = none
after_prefix (c ∷ p) (d ∷ s) = let rest = after_prefix p s in if c == d then rest else none

abbrev pub without_s : Text → Text
without_s [] = []
without_s (c ∷ s) = if c == 115 then s else c ∷ s

abbrev pub url_rest : Option Text → Bool
url_rest none = false
url_rest (some s) = all_url_chars s && (leb 1 (length s) && leb (length s) 300)

abbrev pub url_after_http : Option Text → Bool
url_after_http none = false
url_after_http (some s) = url_rest (after_prefix (58 ∷ 47 ∷ 47 ∷ []) (without_s s))

-- `_URL_RE.match` of a text without white space around it
unfoldable pub is_url : Text → Bool
is_url s = url_after_http (after_prefix (104 ∷ 116 ∷ 116 ∷ 112 ∷ []) s)

-- `_HEX_RE.match`, of such a text
unfoldable pub is_digest : Text → Bool
is_digest s = all_hex s && (leb 8 (length s) && leb (length s) 128)

abbrev pub all_tag_chars : Text → Bool
all_tag_chars [] = true
all_tag_chars (c ∷ s) = (is_alnum c || contains c (46 ∷ 95 ∷ 45 ∷ [])) && all_tag_chars s

-- `_TAG_RE.match`, of such a text
unfoldable pub is_tag : Text → Bool
is_tag [] = false
is_tag (c ∷ s) = is_alnum c && (all_tag_chars s && leb (length s) 63)

abbrev pub if_valid : Bool → Text → Option Text
if_valid true s = some s
if_valid false s = none

-- `_v_url`, `_v_hex`, `_v_tag` and `_v_bool`
abbrev pub v_url : Raw → Option Text
v_url (text s) = if_valid (is_url (strip s)) (strip s)
v_url _ = none

abbrev pub v_hex : Raw → Option Text
v_hex (text s) = if_valid (is_digest (strip s)) (lower_text (strip s))
v_hex _ = none

abbrev pub v_tag : Raw → Option Text
v_tag (text s) = if_valid (is_tag (strip s)) (strip s)
v_tag _ = none

abbrev pub v_bool : Raw → Option Text
v_bool (flag b) = some ((if b then 49 else 48) ∷ [])
v_bool _ = none

-- the environment and the names that were set, latest first
pub record Applied : Type 0 where
  pub env : Dict Text
  pub names : List ℕ

-- `env.get(name, "").strip()` is empty
abbrev pub is_blank : Option Text → Bool
is_blank none = true
is_blank (some s) = elim (strip s) [ [] ↦ true | _ ∷ _ ↦ false ]

-- `_one`
unfoldable pub apply_one : ℕ → Option Text → Applied → Applied
apply_one name none a = a
apply_one name (some val) a =
    if is_blank (lookup name a.env)
    then record { env = insert name val a.env; names = name ∷ a.names }
    else a

-- CONFIG_ALLOWLIST and PROTOCOL_ALLOWLIST
abbrev pub apply_key : ConfigKey → Raw → Applied → Applied
apply_key merge_url raw a = apply_one merge_url_env (v_url raw) a
apply_key content_url raw a = apply_one content_url_env (v_url raw) a
apply_key corpus_store raw a = apply_one content_store_env (v_url raw) a
apply_key corpus_sha raw a = apply_one corpus_sha_env (v_hex raw) a
apply_key (other_key k) raw a = a

abbrev pub apply_protocol_key : ProtocolKey → Raw → Applied → Applied
apply_protocol_key signed_put raw a = apply_one signed_put_env (v_bool raw) a
apply_protocol_key contrib_sig_version raw a = apply_one contrib_sig_env (v_tag raw) a
apply_protocol_key (other_protocol_key k) raw a = a

abbrev pub apply_protocol : List (ProtocolKey × Raw) → Applied → Applied
apply_protocol [] a = a
apply_protocol ((k, raw) ∷ items) a = apply_protocol items (apply_protocol_key k raw a)

abbrev pub apply_entry : Entry → Applied → Applied
apply_entry (entry k raw) a = apply_key k raw a
apply_entry (protocol items) a = apply_protocol items a
apply_entry protocol_not_object a = a

unfoldable pub apply_manifest_config : List Entry → Applied → Applied
apply_manifest_config [] a = a
apply_manifest_config (e ∷ config) a = apply_manifest_config config (apply_entry e a)
