-- ===== src/Examples/Libraries.antt =====
-- Stand-ins for the libraries that keep what is asked of them.
use Prim.Native.Char.{code}
use Prim.Native.String
use cloud_cost_dashboard.Base.{
  ℕ, zero, suc, ◌+◌, ◌<◌, String, ◌≡◌, refl, sym, ◌∙◌, ap, subst, Bool, true, false, ◌&&◌, none,
  some, [], ◌∷◌, arith, str_eq, eq_iff, ltb, ◌==◌, if◌then◌else◌, Option,
}
use cloud_cost_dashboard.Base.Exec.{Result, ok, err}
use cloud_cost_dashboard.Model.{Time}
use cloud_cost_dashboard.Auth.Libraries.{
  Claims, SigningMethod, Jwt, IsLawfulJwt, Bcrypt, IsLawfulBcrypt, hmac, other,
}
use cloud_cost_dashboard.Crypto.{Bytes, Box, IsLawfulBox}
use cloud_cost_dashboard.Examples.World.{viewer}

abbrev is_two : Option ℕ → Bool
is_two none = false
is_two (some n) = n == 2

-- Signs one claims set under one secret.
abbrev is_viewer : Claims → Bool
is_viewer c =
    c.user_id == 1
    && (str_eq c.role viewer.role
        && (str_eq c.scope_type viewer.scope_type
            && (c.expires_at == viewer.expires_at
                && (c.issued_at == viewer.issued_at && is_two c.scope_id))))

abbrev sign : String → Claims → Result String
sign secret c = if str_eq secret "s" && is_viewer c then ok "signed" else err "cannot sign"

abbrev method_of : String → SigningMethod
method_of token = if str_eq token "forged" then other else hmac

abbrev parse_under : Result String → Time → String → Result (Claims × Bool)
parse_under (err e) now token = err e
parse_under (ok k) now token =
    if str_eq k "s" && (str_eq token "signed" && ltb now viewer.expires_at)
    then ok (viewer, true)
    else err "token is malformed"

abbrev pub jwt : Jwt
jwt = record {
  sign = sign;
  parse_with_claims = λ key now token. parse_under (key (method_of token)) now token;
  method_of = method_of;
}

abbrev pub bcrypt : Bcrypt
bcrypt = record {
  generate = λ password. ok (String.◌++◌ password "#");
  compare = λ hash password. str_eq hash (String.◌++◌ password "#");
}

pub bcrypt-IsLawful : IsLawfulBcrypt bcrypt
bcrypt-IsLawful = record {
  compare-generate = λ password hash h. ground (arith, eq_iff hash (String.◌++◌ password "#"));
}

option_two : (o : Option ℕ) → is_two o ≡ true → o ≡ some 2
option_two none h = cc
option_two (some n) h = ground arith

-- Only the one claims set passes the test.
is_viewer-eq : (c : Claims) → is_viewer c ≡ true → c ≡ viewer
is_viewer-eq c h =
    let id : c.user_id ≡ 1 = ground arith in
    let role : c.role ≡ "viewer" = ground (arith, eq_iff c.role "viewer") in
    let scope : c.scope_type ≡ "product" = ground (arith, eq_iff c.scope_type "product") in
    let expires : c.expires_at ≡ viewer.expires_at = ground arith in
    let issued : c.issued_at ≡ 0 = ground arith in
    let named : c.scope_id ≡ some 2 = option_two c.scope_id (ground arith) in
    λ i. record {
      user_id = id i;
      role = role i;
      scope_type = scope i;
      scope_id = named i;
      expires_at = expires i;
      issued_at = issued i;
    }

sign-ok :
    (secret token : String) (c : Claims)
    → sign secret c ≡ ok token
    → (secret ≡ "s") × (c ≡ viewer) × (token ≡ "signed")
sign-ok secret token c h =
    let secret_s : secret ≡ "s" = ground (arith, eq_iff secret "s") in
    let passes : is_viewer c ≡ true = ground arith in
    (secret_s, is_viewer-eq c passes, ground arith)

parsed :
    (now : Time) → now < viewer.expires_at → parse_under (ok "s") now "signed" ≡ ok (viewer, true)
parsed now early = ground arith

pub jwt-IsLawful : IsLawfulJwt jwt
jwt-IsLawful = record {
  parse-sign = λ secret token claims key now h k early.
      let (s, c, t) = sign-ok secret token claims h in
      ap (λ m. parse_under m now token) (ap key (ap method_of t) ∙ k ∙ ap ok s)
      ∙ ap (parse_under (ok "s") now) t
      ∙ parsed now (subst (λ x. now < x.expires_at) c early)
      ∙ ap (λ x. ok (x, true)) (sym c);
  no_key = λ token key now e h. (e, ap (λ r. parse_under r now token) h);
}

-- Bytes are written in unary, each closed by a point.
abbrev encode_byte : ℕ → String → String
encode_byte zero rest = String.◌∷◌ "." rest
encode_byte (suc n) rest = let more = encode_byte n rest in String.◌∷◌ "1" more

abbrev encode : Bytes → String
encode [] = ""
encode (n ∷ l) = encode_byte n (encode l)

abbrev prepend : ℕ → Result Bytes → Result Bytes
prepend n (ok l) = ok (n ∷ l)
prepend n (err e) = err e

abbrev decode_from : ℕ → String → Result Bytes
decode_from n String.[] = ok []
decode_from n (String.◌∷◌ c rest) =
    let closed = prepend n (decode_from 0 rest) in
    let longer = decode_from (suc n) rest in if code c == b'.' then closed else longer

decode_from-encode_byte :
    (n acc : ℕ) (rest : String)
    → decode_from acc (encode_byte n rest) ≡ prepend (n + acc) (decode_from 0 rest)
decode_from-encode_byte zero acc rest = ap (λ m. prepend m (decode_from 0 rest)) (omega arith)
decode_from-encode_byte (suc n) acc rest =
    decode_from-encode_byte n (suc acc) rest
    ∙ ap (λ m. prepend m (decode_from 0 rest)) (omega arith)

decode_from-encode : (l : Bytes) → decode_from 0 (encode l) ≡ ok l
decode_from-encode [] = refl
decode_from-encode (n ∷ l) =
    decode_from-encode_byte n 0 (encode l)
    ∙ ap (prepend (n + 0)) (decode_from-encode l)
    ∙ ap (λ m. ok (m ∷ l)) (omega arith)

abbrev pub box : Box
box = record {
  nonce_size = 2;
  seal = λ nonce plaintext. plaintext;
  open_sealed = λ nonce sealed. ok sealed;
  encode = encode;
  decode = decode_from 0;
}

pub box-IsLawful : IsLawfulBox box
box-IsLawful = record { open-seal = λ nonce plaintext h. refl; decode-encode = decode_from-encode }
