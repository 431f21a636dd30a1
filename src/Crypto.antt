-- ===== src/Crypto.antt =====
-- backend/internal/crypto/crypto.go.  The AEAD of a `Box` and base64 are interfaces.
pub mod Seal
use cloud_cost_dashboard.Base.{ℕ, String, ◌≡◌, List, ◌++◌, length, ltb, if◌then◌else◌}
use cloud_cost_dashboard.Base.Exec.{Result, ok, err}
use cloud_cost_dashboard.Base.Slices.{take, drop}

abbrev pub Bytes : Type 0
Bytes = List ℕ

-- `cipher.AEAD` over the key, without additional data; `seal nonce plaintext` is what is appended.
-- `encode` and `decode` are base64.StdEncoding.
pub record Box : Type 0 where
  pub nonce_size : ℕ
  pub seal : Bytes → Bytes → Bytes
  pub open_sealed : Bytes → Bytes → Result Bytes
  pub encode : Bytes → String
  pub decode : String → Result Bytes

pub record IsLawfulBox (b : Box) : Type 0 where
  pub open-seal :
      (nonce plaintext : Bytes)
      → length nonce ≡ b.nonce_size
      → b.open_sealed nonce (b.seal nonce plaintext) ≡ ok plaintext
  pub decode-encode : (data_bytes : Bytes) → b.decode (b.encode data_bytes) ≡ ok data_bytes

module _ (b : Box) where
  -- `random` is what reading a nonce from `rand.Reader` returns.
  unfoldable pub encrypt : Result Bytes → Bytes → Result String
  encrypt (err e) plaintext = err e
  encrypt (ok nonce) plaintext = ok (b.encode (nonce ++ b.seal nonce plaintext))

  decrypt_bytes : Result Bytes → Result Bytes
  decrypt_bytes (err e) = err e
  decrypt_bytes (ok bytes) =
      if ltb (length bytes) b.nonce_size
      then err "ciphertext too short"
      else b.open_sealed (take b.nonce_size bytes) (drop b.nonce_size bytes)

  unfoldable pub decrypt : String → Result Bytes
  unfolding decrypt_bytes
  decrypt encoded = decrypt_bytes (b.decode encoded)
