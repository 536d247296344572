-- ===== src/Examples/Secrets.antt =====
-- The theorem on app/crypto.py at a text that is read after a key was added, with stand-ins for the
-- libraries: an object is dumped behind a letter for its kind, and a token is the plaintext.
use Prim.Native.String.{[] as no_text, ◌∷◌ as put_char}
use qa_test_backend.Prelude.{
  ◌≡◌, refl, not, inl, inr, none, some, [], ◌∷◌, ◌>>=◌, String, Option, text_dec, text_eq,
  if◌then◌else◌,
}
use qa_test_backend.Crypto.{
  Library, Json, str, number, object, field, no_fields, envelope, decrypt_text, encrypt_text,
  multi_fernet, keys_of, all_keys,
}
use qa_test_backend.Crypto.RoundTrip.{IsSound, payload, decrypt_text-encrypt_text}

abbrev dumps : Json → String
dumps (object (field k (str v) no_fields)) = put_char "P" v
dumps (object (field k (number n) (field l (str t) no_fields))) = put_char "E" t
dumps _ = ""

unfoldable loads : String → Option Json
unfolding text_dec
loads no_text = none
loads (put_char c s) =
    if text_eq (put_char c no_text) "P"
    then some (object (payload s))
    else some (object (envelope s))

abbrev library : Library
library = record {
  strip = λ s. s;
  is_key = λ s. not (text_eq s "no key");
  dumps = dumps;
  loads = loads;
  encrypt = λ keys s. s;
  decrypt = λ keys s. some s;
}

library-IsSound : IsSound library
unfolding loads text_dec
library-IsSound = record {
  loads-payload = λ v. refl;
  loads-envelope = λ t. refl;
  decrypts = λ key older keys plaintext good later there. refl;
}

-- A key is put before the one that was there, and blank parts are no keys.
decrypt_text-encrypt_text_example :
    (encrypt_text library ("old" ∷ "" ∷ []) "ten rupees"
      >>= decrypt_text library ("new" ∷ "old" ∷ []))
    ≡ some "ten rupees"
unfolding multi_fernet keys_of all_keys text_dec
decrypt_text-encrypt_text_example =
    decrypt_text-encrypt_text library ("old" ∷ "" ∷ []) ("new" ∷ "old" ∷ []) "old" []
      ("new" ∷ "old" ∷ []) "ten rupees" library-IsSound refl refl (inr (inl refl))
