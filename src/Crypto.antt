-- ===== src/Crypto.antt =====
-- app/crypto.py: encryption of fields at rest. The package `cryptography` and Python's `json` and `str` are
-- arguments: whether `Fernet` takes a text for a key, `MultiFernet.encrypt` and `decrypt` over a list of
-- keys, `json.dumps` and `loads`, `strip`. The settings are the parts of FIELD_ENCRYPTION_KEYS between its
-- commas. `none` is an exception.
pub mod RoundTrip
use qa_test_backend.Prelude.{
  ℕ, Option, none, some, Bool, true, false, List, [], ◌∷◌, String, text_eq, ◌==◌, ◌&&◌, ◌>>=◌,
  if◌then◌else◌,
}

-- A JSON value, as far as envelopes go: the others are `other`.
mutual
  pub data Json : Type 0 where
    number : ℕ → Json
    str : String → Json
    object : Fields → Json
    other : Json

  pub data Fields : Type 0 where
    no_fields : Fields
    field : String → Json → Fields → Fields

abbrev pub format_version : ℕ
format_version = 1

-- `d.get(key)`: a key of a dict that is read from JSON occurs once.
unfoldable pub get : String → Fields → Option Json
get key no_fields = none
get key (field k v fields) = let rest = get key fields in if text_eq k key then some v else rest

abbrev text_of : Option Json → Option String
text_of (some (str s)) = some s
text_of _ = none

abbrev is_version : Option Json → Bool
is_version (some (number n)) = n == format_version
is_version _ = false

abbrev has_ct : Option Json → Bool
has_ct (some v) = true
has_ct none = false

abbrev pub envelope : String → Fields
envelope token = field "v" (number format_version) (field "ct" (str token) no_fields)

-- What the module takes from elsewhere.
pub record Library : Type 0 where
  pub strip : String → String
  pub is_key : String → Bool
  pub dumps : Json → String
  pub loads : String → Option Json
  pub encrypt : List String → String → String
  pub decrypt : List String → String → Option String

module _ (lib : Library) where
  -- The keys that are not blank.
  unfoldable pub keys_of : List String → List String
  keys_of [] = []
  keys_of (k ∷ ks) =
      let rest = keys_of ks in if text_eq (lib.strip k) "" then rest else lib.strip k ∷ rest

  unfoldable pub all_keys : List String → Bool
  all_keys [] = true
  all_keys (k ∷ ks) = lib.is_key k && all_keys ks

  -- `_multi_fernet`: `Fernet(k.encode())` raises for a text that is no key.
  unfoldable pub multi_fernet : List String → Option (List String)
  unfolding keys_of all_keys
  multi_fernet parts = elim (keys_of parts) [
    | [] ↦ none
    | k ∷ ks ↦ if all_keys (k ∷ ks) then some (k ∷ ks) else none
  ]

  unfoldable pub encrypt_json : List String → Fields → Option Fields
  unfolding multi_fernet
  encrypt_json parts value =
      multi_fernet parts >>= (λ keys. some (envelope (lib.encrypt keys (lib.dumps (object value)))))

  abbrev object_of : Option Json → Option Fields
  object_of (some (object fields)) = some fields
  object_of _ = none

  unfoldable pub decrypt_json : List String → Fields → Option Fields
  unfolding multi_fernet get
  decrypt_json parts fields =
      if is_version (get "v" fields)
      then text_of (get "ct" fields) >>= (λ token.
        multi_fernet parts
        >>= (λ keys. lib.decrypt keys token >>= (λ plaintext. object_of (lib.loads plaintext))))
      else none

  unfoldable pub encrypt_text : List String → String → Option String
  unfolding encrypt_json
  encrypt_text parts value =
      encrypt_json parts (field "text" (str value) no_fields) >>= (λ e. some (lib.dumps (object e)))

  -- What `decrypt_text` does with an object.
  unfoldable pub open_envelope : List String → String → Fields → Option String
  unfolding decrypt_json get
  open_envelope parts stored fields =
      if is_version (get "v" fields)
      then (if has_ct (get "ct" fields)
          then decrypt_json parts fields >>= (λ payload. text_of (get "text" payload))
          else some stored)
      else some stored

  unfoldable pub decrypt_text : List String → String → Option String
  unfolding open_envelope
  decrypt_text parts stored = elim (lib.loads stored) [
    | some (object fields) ↦ open_envelope parts stored fields
    | _ ↦ some stored
  ]
