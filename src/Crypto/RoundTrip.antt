-- ===== src/Crypto/RoundTrip.antt =====
-- What is encrypted by app/crypto.py can be read back, also after the keys were rotated.
use qa_test_backend.Prelude.{
  All, [], Bool-cases, List-cases, inl, inr, true, subst, ◌≡◌, refl, some, List, ◌∷◌, String, arith,
  Among, ◌>>=◌, text_dec,
}
use qa_test_backend.Crypto.{
  Library, Fields, number, str, object, field, no_fields, envelope, multi_fernet, encrypt_json,
  all_keys, keys_of, decrypt_json, encrypt_text, decrypt_text, open_envelope, get,
}

abbrev pub payload : String → Fields
payload value = field "text" (str value) no_fields

-- What the documentation of `json` and of `MultiFernet` says: the objects that are dumped here are loaded
-- again, and a token is decrypted by any list of keys that `Fernet` takes and that has the first of those
-- that it was encrypted with.
pub record IsSound (lib : Library) : Type 0 where
  pub loads-payload :
      (value : String)
      → lib.loads (lib.dumps (object (payload value))) ≡ some (object (payload value))
  pub loads-envelope :
      (token : String)
      → lib.loads (lib.dumps (object (envelope token))) ≡ some (object (envelope token))
  pub decrypts :
      (key : String) (older keys : List String) (plaintext : String)
      → All (λ k. lib.is_key k ≡ true) (key ∷ older)
      → All (λ k. lib.is_key k ≡ true) keys
      → Among key keys
      → lib.decrypt keys (lib.encrypt (key ∷ older) plaintext) ≡ some plaintext

get_v : (token : String) → get "v" (envelope token) ≡ some (number 1)
unfolding get text_dec
get_v token = refl

get_ct : (token : String) → get "ct" (envelope token) ≡ some (str token)
unfolding get text_dec
get_ct token = refl

get_text : (value : String) → get "text" (payload value) ≡ some (str value)
unfolding get text_dec
get_text value = refl

all_keys-All :
    (lib : Library) (ks : List String) → all_keys lib ks ≡ true → All (λ k. lib.is_key k ≡ true) ks
unfolding all_keys
all_keys-All lib [] h = tt
all_keys-All lib (k ∷ ks) h = (ground (arith, h), all_keys-All lib ks (ground (arith, h)))

-- A setting that gives keys gives keys that `Fernet` takes.
multi_fernet-All :
    (lib : Library) (parts keys : List String)
    → multi_fernet lib parts ≡ some keys
    → All (λ k. lib.is_key k ≡ true) keys
unfolding multi_fernet
multi_fernet-All lib parts keys e = elim (List-cases (keys_of lib parts)) [
  | inl blank ↦ absurd (ground (arith, e, blank))
  | inr (k, ks, given) ↦ elim (Bool-cases (all_keys lib (k ∷ ks))) [
    | inl valid ↦
        let same : k ∷ ks ≡ keys = ground (arith, e, given, valid) in
        subst (All (λ k. lib.is_key k ≡ true)) same (all_keys-All lib (k ∷ ks) valid)
    | inr bad ↦ absurd (ground (arith, e, given, bad))
  ]
]

module _ (lib : Library) (sound : IsSound lib) (key : String) (older keys : List String)
    (good : All (λ k. lib.is_key k ≡ true) (key ∷ older)) (there : Among key keys)
    (later_parts : List String) (later : multi_fernet lib later_parts ≡ some keys) where
  abbrev sealed : String → String
  sealed value = lib.encrypt (key ∷ older) (lib.dumps (object (payload value)))

  decrypt_json-sealed :
      (value : String)
      → decrypt_json lib later_parts (envelope (sealed value)) ≡ some (payload value)
  unfolding decrypt_json
  decrypt_json-sealed value =
      rw
        (
          get_v,
          get_ct,
          later,
          sound.decrypts key older keys (lib.dumps (object (payload value))) good
              (multi_fernet-All lib later_parts keys later) there,
          sound.loads-payload value,
        )
        refl

  open_envelope-sealed :
      (stored value : String)
      → open_envelope lib later_parts stored (envelope (sealed value)) ≡ some value
  unfolding open_envelope
  open_envelope-sealed stored value = ground (
    arith,
    get_v (sealed value),
    get_ct (sealed value),
    decrypt_json-sealed value,
    get_text value,
  )

  decrypt_text-sealed :
      (value : String)
      → decrypt_text lib later_parts (lib.dumps (object (envelope (sealed value)))) ≡ some value
  unfolding decrypt_text
  decrypt_text-sealed value =
      let stored = lib.dumps (object (envelope (sealed value))) in
      ground (arith, sound.loads-envelope (sealed value), open_envelope-sealed stored value)

-- A text that is encrypted under one setting of the keys is what any setting decrypts that still has the
-- first of them, if each setting has at least one key and only such as `Fernet` takes, and if the
-- libraries do what they say.
pub decrypt_text-encrypt_text :
    (lib : Library) (parts later_parts : List String) (key : String) (older keys : List String)
    (value : String)
    → IsSound lib
    → multi_fernet lib parts ≡ some (key ∷ older)
    → multi_fernet lib later_parts ≡ some keys
    → Among key keys
    → (encrypt_text lib parts value >>= decrypt_text lib later_parts) ≡ some value
unfolding encrypt_text encrypt_json
decrypt_text-encrypt_text lib parts later_parts key older keys value sound first later there =
    rw first (
      decrypt_text-sealed lib sound key older keys (multi_fernet-All lib parts (key ∷ older) first)
        there later_parts later value)
