-- ===== src/Updates/Paths.antt =====
-- tools/self_update.py: the safe relative paths, and those that are never touched.
use neurahash_miner.Base.{
  ◌++◌, true, ◌&&◌, some, ◌==◌, ltb, leb, contains, false, none, if◌then◌else◌, ◌||◌, List, Bool,
  Option, ℕ, [], ◌∷◌,
}
use Prim.Native.Char.{code}
use Prim.Native.String.{String}
use neurahash_miner.Updates.Version.{Text, strip}
use neurahash_miner.Updates.Config.{after_prefix}
use neurahash_miner.Updates.Apply.{lower_text, eq_text}

-- the codes of a text
abbrev pub codes : String → Text
codes String.[] = []
codes (String.◌∷◌ c s) = code c ∷ codes s

abbrev pub all_codes : List String → List Text
all_codes [] = []
all_codes (s ∷ ss) = codes s ∷ all_codes ss

abbrev pub mem_text : Text → List Text → Bool
mem_text s [] = false
mem_text s (t ∷ ts) = eq_text s t || mem_text s ts

-- `s.replace("\\", "/")`
abbrev pub forward_slashes : Text → Text
forward_slashes [] = []
forward_slashes (c ∷ s) = (if c == 92 then 47 else c) ∷ forward_slashes s

abbrev pub cons_part : ℕ → List Text → List Text
cons_part c [] = (c ∷ []) ∷ []
cons_part c (part ∷ parts) = (c ∷ part) ∷ parts

-- `s.split("/")`
unfoldable pub split_slashes : Text → List Text
split_slashes [] = [] ∷ []
split_slashes (c ∷ s) =
    let rest = split_slashes s in if c == 47 then [] ∷ rest else cons_part c rest

-- the components that are neither empty nor "."
abbrev pub real_parts : List Text → List Text
real_parts [] = []
real_parts (p ∷ ps) =
    let rest = real_parts ps in if eq_text p [] || eq_text p (46 ∷ []) then rest else p ∷ rest

abbrev pub has_prefix : Text → Text → Bool
has_prefix p s = elim (after_prefix p s) [ none ↦ false | some _ ↦ true ]

-- `_DRIVE_RE`
abbrev pub has_drive : Text → Bool
has_drive [] = false
has_drive (c ∷ []) = false
has_drive (c ∷ (d ∷ s)) = ((leb 65 c && leb c 90) || (leb 97 c && leb c 122)) && (d == 58)

-- whether the last character is a dot or a space
abbrev pub ends_badly : Text → Bool
ends_badly [] = false
ends_badly (c ∷ []) = (c == 46) || (c == 32)
ends_badly (c ∷ (d ∷ s)) = ends_badly (d ∷ s)

abbrev pub has_control : Text → Bool
has_control [] = false
has_control (c ∷ s) = ltb c 32 || has_control s

abbrev pub before_dot : Text → Text
before_dot [] = []
before_dot (c ∷ s) = let rest = before_dot s in if c == 46 then [] else c ∷ rest

-- _WIN_RESERVED_NAMES, in lower case, as the component is compared
abbrev pub reserved_names : List Text
reserved_names = all_codes (
    "con" ∷ "prn" ∷ "aux" ∷ "nul" ∷ "conin$" ∷ "conout$" ∷ "com1" ∷ "com2" ∷ "com3" ∷ "com4"
    ∷ "com5" ∷ "com6" ∷ "com7" ∷ "com8" ∷ "com9" ∷ "lpt1" ∷ "lpt2" ∷ "lpt3" ∷ "lpt4" ∷ "lpt5"
    ∷ "lpt6" ∷ "lpt7" ∷ "lpt8" ∷ "lpt9" ∷ [])

abbrev pub is_bad_part : Text → Bool
is_bad_part p =
    ends_badly p
    || (contains 58 p || (has_control p || mem_text (lower_text (before_dot p)) reserved_names))

abbrev pub any_bad_part : List Text → Bool
any_bad_part [] = false
any_bad_part (p ∷ ps) = is_bad_part p || any_bad_part ps

abbrev pub safe_parts : List Text → Option (List Text)
safe_parts [] = none
safe_parts (p ∷ ps) =
    if mem_text (46 ∷ 46 ∷ []) (p ∷ ps) || any_bad_part (p ∷ ps) then none else some (p ∷ ps)

-- `_normalise_relpath`: the components, or none where the path is refused
unfoldable pub normalise : Text → Option (List Text)
normalise rel =
    let s = forward_slashes (strip rel) in
    if contains 0 s || (has_prefix (47 ∷ []) s || has_drive s)
    then none
    else safe_parts (real_parts (split_slashes s))

abbrev pub never_touch_dir_parts : List Text
never_touch_dir_parts = all_codes (
    ".git" ∷ ".hg" ∷ ".svn" ∷ ".venv" ∷ "venv" ∷ "env" ∷ "node_modules" ∷ "site-packages"
    ∷ "__pycache__" ∷ "wallet" ∷ "wallets" ∷ "keystore" ∷ "keystores" ∷ "key" ∷ "keys" ∷ "secret"
    ∷ "secrets" ∷ "state" ∷ "logs" ∷ "log" ∷ "checkpoint" ∷ "checkpoints" ∷ "ckpt" ∷ "ckpts"
    ∷ "runs" ∷ "artifacts" ∷ "corpus" ∷ "corpora" ∷ "corpus_cache" ∷ "cache" ∷ "data" ∷ "datasets"
    ∷ "_poollive" ∷ [])

abbrev pub never_touch_part_prefixes : List Text
never_touch_part_prefixes = all_codes (
    "_state" ∷ "_poollive" ∷ ".neurahash" ∷ "_rl_" ∷ "_granite" ∷ "_rung" ∷ "_xarch" ∷ "_olmoe"
    ∷ [])

abbrev pub never_touch_names : List Text
never_touch_names = all_codes (
    "version" ∷ "requirements.txt" ∷ "release.json" ∷ ".env" ∷ ".gitignore" ∷ ".gitattributes"
    ∷ "miner_wallet.json" ∷ "wallet.json" ∷ "keystore.json" ∷ "identity.json" ∷ [])

abbrev pub never_touch_suffixes : List Text
never_touch_suffixes = all_codes (
    ".key" ∷ ".pem" ∷ ".p12" ∷ ".pfx" ∷ ".keystore" ∷ ".seed" ∷ ".mnemonic" ∷ ".log" ∷ ".pt"
    ∷ ".pth" ∷ ".bin" ∷ ".safetensors" ∷ ".ckpt" ∷ ".npy" ∷ ".npz" ∷ ".db" ∷ ".sqlite" ∷ ".sqlite3"
    ∷ ".pid" ∷ ".sock" ∷ ".lock" ∷ [])

abbrev pub never_touch_substrings : List Text
never_touch_substrings = all_codes (
    "wallet" ∷ "keystore" ∷ "privkey" ∷ "private_key" ∷ "secret" ∷ "mnemonic" ∷ "passphrase"
    ∷ "credential" ∷ "seed_phrase" ∷ "token" ∷ [])

abbrev pub starts_with_any : List Text → Text → Bool
starts_with_any [] s = false
starts_with_any (p ∷ ps) s = has_prefix p s || starts_with_any ps s

abbrev pub has_suffix : Text → Text → Bool
has_suffix p [] = eq_text [] p
has_suffix p (c ∷ s) = eq_text (c ∷ s) p || has_suffix p s

abbrev pub ends_with_any : List Text → Text → Bool
ends_with_any [] s = false
ends_with_any (p ∷ ps) s = has_suffix p s || ends_with_any ps s

abbrev pub has_substring : Text → Text → Bool
has_substring p [] = has_prefix p []
has_substring p (c ∷ s) = has_prefix p (c ∷ s) || has_substring p s

abbrev pub has_any_substring : List Text → Text → Bool
has_any_substring [] s = false
has_any_substring (p ∷ ps) s = has_substring p s || has_any_substring ps s

-- `"/".join(parts)`
abbrev pub join_slashes : List Text → Text
join_slashes [] = []
join_slashes (p ∷ []) = p
join_slashes (p ∷ (q ∷ ps)) = p ++ (47 ∷ join_slashes (q ∷ ps))

abbrev pub any_touchy_part : List Text → Bool
any_touchy_part [] = false
any_touchy_part (p ∷ ps) =
    (mem_text p never_touch_dir_parts || starts_with_any never_touch_part_prefixes p)
    || any_touchy_part ps

abbrev pub last_part : List Text → Text
last_part [] = []
last_part (p ∷ []) = p
last_part (p ∷ (q ∷ ps)) = last_part (q ∷ ps)

abbrev pub lower_all : List Text → List Text
lower_all [] = []
lower_all (p ∷ ps) = lower_text p ∷ lower_all ps

abbrev pub touchy_name : Text → Bool
touchy_name name = mem_text name never_touch_names || ends_with_any never_touch_suffixes name

-- `_never_touch_reason` gives a reason, for the components of a normalised path
unfoldable pub never_touch : List Text → Bool
never_touch parts =
    let low = lower_all parts in
    any_touchy_part low
    || (touchy_name (last_part low) || has_any_substring never_touch_substrings (join_slashes low))
