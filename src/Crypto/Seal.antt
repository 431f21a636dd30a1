-- ===== src/Crypto/Seal.antt =====
-- Decrypting what was encrypted.
use cloud_cost_dashboard.Base.{String, ◌≡◌, sym, ◌∙◌, ap, ap₂, ◌++◌, arith, length, ltb, if-false}
use cloud_cost_dashboard.Base.Exec.{Result, ok}
use cloud_cost_dashboard.Base.Slices.{take, drop, take-append, drop-append, length-append}
use cloud_cost_dashboard.Crypto.{Bytes, Box, IsLawfulBox, encrypt, decrypt_bytes, decrypt}

module _ (b : Box) (promises : IsLawfulBox b) where
  -- What `Encrypt` made with a nonce of the right size, `Decrypt` turns back into the plaintext.
  pub decrypt-encrypt :
      (nonce plaintext : Bytes) (encoded : String)
      → length nonce ≡ b.nonce_size
      → encrypt b (ok nonce) plaintext ≡ ok encoded
      → decrypt b encoded ≡ ok plaintext
  unfolding encrypt decrypt
  decrypt-encrypt nonce plaintext encoded size h =
      let sealed = b.seal nonce plaintext in
      let all_bytes = nonce ++ sealed in
      let same : encoded ≡ b.encode all_bytes = cc h in
      ap (λ e. decrypt_bytes b (b.decode e)) same
      ∙ ap (decrypt_bytes b) (promises.decode-encode all_bytes)
      ∙ if-false {A = Result Bytes} {b = ltb (length all_bytes) b.nonce_size} _ _
          (ground (arith, length-append nonce sealed))
      ∙ ap₂ b.open_sealed (ap (λ n. take n all_bytes) (sym size) ∙ take-append nonce sealed)
          (ap (λ n. drop n all_bytes) (sym size) ∙ drop-append nonce sealed)
      ∙ promises.open-seal nonce plaintext size
