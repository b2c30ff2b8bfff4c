-- ===== src/Updates/Defaults.antt =====
-- tools/self_update.py: a manifest's `config` only fills in what the operator has not set.
use mathlib.Core.Path.{subst}
use neurahash_miner.Updates.Apply.{eq_text, lower_char, lower_text}
use neurahash_miner.Base.{
  List, none, lookup-insert, ◌&&◌, inr, false, ◌==◌, ◌∙◌, suc, ◌||◌, refl, Bool-cases, ap, arith,
  [], ◌⊎◌, inl, true, some, lookup, ◌∷◌, ltb, ◌≡◌, Dict, Option, if◌then◌else◌, ℕ, Bool, length,
}
use neurahash_miner.Updates.Manifest.{
  corpus_sha, corpus_store, contrib_sig_version, protocol_not_object, content_url, signed_put,
  protocol, merge_url, other_protocol_key, other_key, entry, ProtocolKey, ConfigKey, Entry, other,
  flag, text, is_hex, Raw, all_hex,
}
use neurahash_miner.Updates.Version.{Text, strip}
use neurahash_miner.Updates.Config.{
  apply_key, apply_protocol, apply_entry, apply_protocol_key, is_blank, is_digest, is_tag, is_url,
  if_valid, v_hex, v_url, v_tag, v_bool, apply_one, Applied, apply_manifest_config,
}

-- what the allowlist lets a variable be set to
abbrev pub allowed_value : ℕ → Text → Bool
allowed_value name v =
    if ltb name 3
    then is_url v
    else if name == 3
    then is_digest v
    else if name == 4
    then eq_text v (49 ∷ []) || eq_text v (48 ∷ [])
    else (name == 5) && is_tag v

-- A variable keeps its value, or it was blank and has a value that the allowlist lets it have.
abbrev pub KeepsOrFills : ℕ → Dict Text → Dict Text → Type 0
KeepsOrFills name env env' =
    (lookup name env' ≡ lookup name env)
    ⊎ ((is_blank (lookup name env) ≡ true)
        × ((v : Text) × (lookup name env' ≡ some v) × (allowed_value name v ≡ true)))

then_fills :
    (name : ℕ) (env env' env'' : Dict Text)
    → KeepsOrFills name env env'
    → KeepsOrFills name env' env''
    → KeepsOrFills name env env''
then_fills name env env' env'' (inl e) (inl f) = inl (f ∙ e)
then_fills name env env' env'' (inl e) (inr (b, filled)) =
    inr (subst (λ o. is_blank o ≡ true) e b, filled)
then_fills name env env' env'' (inr (b, (v, f, g))) (inl e) = inr (b, (v, e ∙ f, g))
then_fills name env env' env'' (inr (b, first)) (inr (c, second)) = inr (b, second)

apply_one-fills :
    (name k : ℕ) (val : Option Text) (a : Applied)
    → ((v : Text) → val ≡ some v → allowed_value k v ≡ true)
    → KeepsOrFills name a.env (apply_one k val a).env
unfolding apply_one
apply_one-fills name k none a h = inl refl
apply_one-fills name k (some val) a h = elim (Bool-cases (is_blank (lookup k a.env))) [
  | inr b ↦ inl (ground (arith, b))
  | inl b ↦ elim (Bool-cases (name == k)) [
    | inr n ↦ inl (ground (arith, b, n, lookup-insert name k val a.env))
    | inl n ↦
        let same : k ≡ name = ground (arith, n) in
        inr (
          subst (λ x. is_blank (lookup x a.env) ≡ true) same b,
          (
            val,
            ground (arith, b, n, lookup-insert name k val a.env),
            subst (λ x. allowed_value x val ≡ true) same (h val refl),
          ),
        )
  ]
]

if_valid_inv : (b : Bool) (s v : Text) → if_valid b s ≡ some v → (b ≡ true) × (s ≡ v)
if_valid_inv true s v e = (refl, ground (arith, e))
if_valid_inv false s v e = absurd (ground (arith, e))

url_value : (raw : Raw) (v : Text) → v_url raw ≡ some v → is_url v ≡ true
url_value (text s) v e =
    let (b, same) = if_valid_inv (is_url (strip s)) (strip s) v e in
    subst (λ x. is_url x ≡ true) same b
url_value (flag b) v e = absurd (ground (arith, e))
url_value (other n) v e = absurd (ground (arith, e))

tag_value : (raw : Raw) (v : Text) → v_tag raw ≡ some v → is_tag v ≡ true
tag_value (text s) v e =
    let (b, same) = if_valid_inv (is_tag (strip s)) (strip s) v e in
    subst (λ x. is_tag x ≡ true) same b
tag_value (flag b) v e = absurd (ground (arith, e))
tag_value (other n) v e = absurd (ground (arith, e))

lower_hex : (c : ℕ) → is_hex c ≡ true → is_hex (lower_char c) ≡ true
lower_hex c e = ground (arith, e)

lower_all_hex : (s : Text) → all_hex s ≡ true → all_hex (lower_text s) ≡ true
lower_all_hex [] e = refl
lower_all_hex (c ∷ s) e =
    ground (arith, lower_hex c (ground (arith, e)), lower_all_hex s (ground (arith, e)))

length-lower_text : (s : Text) → length (lower_text s) ≡ length s
length-lower_text [] = refl
length-lower_text (c ∷ s) = ap suc (length-lower_text s)

lower_digest : (s : Text) → is_digest s ≡ true → is_digest (lower_text s) ≡ true
unfolding is_digest
lower_digest s e = ground (arith, e, lower_all_hex s (ground (arith, e)), length-lower_text s)

hex_value : (raw : Raw) (v : Text) → v_hex raw ≡ some v → is_digest v ≡ true
hex_value (text s) v e =
    let (b, same) = if_valid_inv (is_digest (strip s)) (lower_text (strip s)) v e in
    subst (λ x. is_digest x ≡ true) same (lower_digest (strip s) b)
hex_value (flag b) v e = absurd (ground (arith, e))
hex_value (other n) v e = absurd (ground (arith, e))

bool_value :
    (raw : Raw) (v : Text)
    → v_bool raw ≡ some v
    → (eq_text v (49 ∷ []) || eq_text v (48 ∷ [])) ≡ true
bool_value (text s) v e = absurd (ground (arith, e))
bool_value (flag true) v e =
    let same : 49 ∷ [] ≡ v = ground (arith, e) in
    subst (λ x. (eq_text x (49 ∷ []) || eq_text x (48 ∷ [])) ≡ true) same refl
bool_value (flag false) v e =
    let same : 48 ∷ [] ≡ v = ground (arith, e) in
    subst (λ x. (eq_text x (49 ∷ []) || eq_text x (48 ∷ [])) ≡ true) same refl
bool_value (other n) v e = absurd (ground (arith, e))

key_fills :
    (name : ℕ) (k : ConfigKey) (raw : Raw) (a : Applied)
    → KeepsOrFills name a.env (apply_key k raw a).env
key_fills name merge_url raw a = apply_one-fills name 0 (v_url raw) a (url_value raw)
key_fills name content_url raw a = apply_one-fills name 1 (v_url raw) a (url_value raw)
key_fills name corpus_store raw a = apply_one-fills name 2 (v_url raw) a (url_value raw)
key_fills name corpus_sha raw a = apply_one-fills name 3 (v_hex raw) a (hex_value raw)
key_fills name (other_key k) raw a = inl refl

protocol_key_fills :
    (name : ℕ) (k : ProtocolKey) (raw : Raw) (a : Applied)
    → KeepsOrFills name a.env (apply_protocol_key k raw a).env
protocol_key_fills name signed_put raw a = apply_one-fills name 4 (v_bool raw) a (bool_value raw)
protocol_key_fills name contrib_sig_version raw a =
    apply_one-fills name 5 (v_tag raw) a (tag_value raw)
protocol_key_fills name (other_protocol_key k) raw a = inl refl

protocol_fills :
    (name : ℕ) (items : List (ProtocolKey × Raw)) (a : Applied)
    → KeepsOrFills name a.env (apply_protocol items a).env
protocol_fills name [] a = inl refl
protocol_fills name ((k, raw) ∷ items) a =
    let b = apply_protocol_key k raw a in
    then_fills name a.env b.env (apply_protocol items b).env (protocol_key_fills name k raw a)
      (protocol_fills name items b)

entry_fills : (name : ℕ) (e : Entry) (a : Applied) → KeepsOrFills name a.env (apply_entry e a).env
entry_fills name (entry k raw) a = key_fills name k raw a
entry_fills name (protocol items) a = protocol_fills name items a
entry_fills name protocol_not_object a = inl refl

-- A manifest's `config` leaves every variable of the environment as it is, or gives a variable that
-- was unset or blank a value: only a variable of the allowlist, and only a value of its shape.
pub apply_manifest_config-fills :
    (config : List Entry) (a : Applied) (name : ℕ)
    → KeepsOrFills name a.env (apply_manifest_config config a).env
unfolding apply_manifest_config
apply_manifest_config-fills [] a name = inl refl
apply_manifest_config-fills (e ∷ config) a name =
    let b = apply_entry e a in
    then_fills name a.env b.env (apply_manifest_config config b).env (entry_fills name e a)
      (apply_manifest_config-fills config b name)
