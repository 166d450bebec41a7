-- ===== src/Tests/Codecs.antt =====
-- Encodings that can be evaluated and that keep the laws asked of the library's.
use Prim.Native.Nat.{compare, Ordering}
use Prim.Native.Char.{Char, char, code, nul, IsLt, IsScalar}
use Prim.Native.String.{[] as empty, ◌∷◌ as cons}
use text.Mathlib.TextLemmas.{cons-ne-nil}
use text.Mathlib.TextEquality.{IsScalar-prop}
use wonderwall.Base.{
  Result, ℕ, zero, suc, ◌+◌, ◌≡◌, refl, sym, ap, String, [], ◌∷◌, ◌++◌, length, take, drop,
  take-append_left, drop-append_left, ok, arith, ◌∙◌,
}
use wonderwall.Base.Int.{ℤ, pos, negsuc}
use wonderwall.Http.{Bytes, Encoding, IsEncoding}
use wonderwall.Session.Metadata.{Metadata}
use wonderwall.Session.Data.{Data, Json}
use wonderwall.Session.Data.RoundTrip.{IsJson}

abbrev Both : Ordering → Ordering → Type 0
Both Ordering.lt o = IsLt o
Both Ordering.eq _ = ⊥
Both Ordering.gt _ = ⊥

abbrev Scalar : Ordering → Ordering → Ordering → Type 0
Scalar Ordering.lt _ _ = Unit
Scalar Ordering.eq o p = Both o p
Scalar Ordering.gt o p = Both o p

abbrev scalar_dec : (a b c : Ordering) → Dec (Scalar a b c)
scalar_dec Ordering.lt b c = yes tt
scalar_dec Ordering.eq Ordering.lt Ordering.lt = yes tt
scalar_dec Ordering.eq Ordering.lt Ordering.eq = no (λ h. h)
scalar_dec Ordering.eq Ordering.lt Ordering.gt = no (λ h. h)
scalar_dec Ordering.eq Ordering.eq c = no (λ h. h)
scalar_dec Ordering.eq Ordering.gt c = no (λ h. h)
scalar_dec Ordering.gt Ordering.lt Ordering.lt = yes tt
scalar_dec Ordering.gt Ordering.lt Ordering.eq = no (λ h. h)
scalar_dec Ordering.gt Ordering.lt Ordering.gt = no (λ h. h)
scalar_dec Ordering.gt Ordering.eq c = no (λ h. h)
scalar_dec Ordering.gt Ordering.gt c = no (λ h. h)

abbrev dec_scalar : (n : ℕ) → Dec (IsScalar n)
dec_scalar n = scalar_dec (compare n 55296) (compare 57343 n) (compare n 1114112)

abbrev char_if : (n : ℕ) → Dec (IsScalar n) → Char
char_if n (yes h) = char n h
char_if n (no _) = nul

char_if_scalar : (n : ℕ) (h : IsScalar n) (d : Dec (IsScalar n)) → char_if n d ≡ char n h
char_if_scalar n h (yes k) = ap (char n) (IsScalar-prop n k h)
char_if_scalar n h (no k) = absurd (k h)

abbrev text_bytes : String → Bytes
text_bytes empty = []
text_bytes (cons c s) = code c ∷ text_bytes s

abbrev bytes_text : Bytes → String
bytes_text [] = empty
bytes_text (n ∷ ns) = cons (char_if n (dec_scalar n)) (bytes_text ns)

bytes_text-text_bytes : (s : String) → bytes_text (text_bytes s) ≡ s
bytes_text-text_bytes empty = refl
bytes_text-text_bytes (cons (char n h) s) =
    rw (char_if_scalar n h (dec_scalar n)) (ap (cons (char n h)) (bytes_text-text_bytes s))

-- Each number as that many letters a, and a letter b.
abbrev unary : ℕ → String → String
unary zero s = cons (char 98 tt) s
unary (suc n) s = cons (char 97 tt) (unary n s)

abbrev letters : Bytes → String
letters [] = empty
letters (n ∷ ns) = unary n (letters ns)

abbrev is_a : Char → Ordering
is_a c = compare (code c) 97

abbrev count_letters : ℕ → String → Bytes
count_letters n empty = []
count_letters n (cons c s) = elim (is_a c) [
  | Ordering.eq ↦ count_letters (suc n) s
  | _ ↦ n ∷ count_letters 0 s
]

count_letters-unary :
    (k n : ℕ) (s : String) → count_letters k (unary n s) ≡ (n + k) ∷ count_letters 0 s
count_letters-unary k zero s = ap (λ m. m ∷ count_letters 0 s) (omega arith)
count_letters-unary k (suc n) s =
    count_letters-unary (suc k) n s ∙ ap (λ m. m ∷ count_letters 0 s) (omega arith)

count_letters-letters : (b : Bytes) → count_letters 0 (letters b) ≡ b
count_letters-letters [] = refl
count_letters-letters (n ∷ ns) =
    count_letters-unary 0 n (letters ns)
    ∙ rw (count_letters-letters ns) (ap (λ m. m ∷ ns) (omega arith))

pub letters-nonempty : (b : Bytes) → letters b ≡ "" → b ≡ []
letters-nonempty [] h = refl
letters-nonempty (zero ∷ ns) h = absurd (cons-ne-nil _ _ h)
letters-nonempty (suc n ∷ ns) h = absurd (cons-ne-nil _ _ h)

abbrev pub plain_encoding : Encoding
plain_encoding = record {
  to_bytes = text_bytes;
  to_string = bytes_text;
  base64 = letters;
  from_base64 = λ s. ok (count_letters 0 s);
}

pub plain_encoding-IsEncoding : IsEncoding plain_encoding
plain_encoding-IsEncoding = record {
  string-bytes = bytes_text-text_bytes;
  decodes = λ b. ap ok (count_letters-letters b);
}

unfoldable pub put_text : String → Bytes → Bytes
put_text s rest = length (text_bytes s) ∷ text_bytes s ++ rest

unfoldable pub get_text : Bytes → String × Bytes
get_text [] = ("", [])
get_text (n ∷ rest) = (bytes_text (take n rest), drop n rest)

pub get_text-put_text : (s : String) (rest : Bytes) → get_text (put_text s rest) ≡ (s, rest)
unfolding get_text put_text
get_text-put_text s rest =
    rw (take-append_left (text_bytes s) rest, drop-append_left (text_bytes s) rest)
      (ap (λ t. (t, rest)) (bytes_text-text_bytes s))

abbrev put_int : ℤ → Bytes → Bytes
put_int (pos n) rest = 0 ∷ n ∷ rest
put_int (negsuc n) rest = 1 ∷ n ∷ rest

abbrev get_int : Bytes → ℤ × Bytes
get_int (zero ∷ n ∷ rest) = (pos n, rest)
get_int (suc _ ∷ n ∷ rest) = (negsuc n, rest)
get_int _ = (pos 0, [])

get_int-put_int : (a : ℤ) (rest : Bytes) → get_int (put_int a rest) ≡ (a, rest)
get_int-put_int (pos n) rest = refl
get_int-put_int (negsuc n) rest = refl

abbrev pub plain_itoa : ℤ → String
plain_itoa a = letters (put_int a [])

abbrev pub plain_atoi : String → Result ℤ
plain_atoi s = ok (get_int (count_letters 0 s)).0

pub plain_atoi-plain_itoa : (a : ℤ) → plain_atoi (plain_itoa a) ≡ ok a
plain_atoi-plain_itoa a = rw (count_letters-letters (put_int a [])) (rw (get_int-put_int a []) refl)

abbrev put_metadata : Metadata → Bytes
put_metadata m = put_int m.session.created_at (
    put_int m.session.ends_at (
      put_int m.session.timeout_at (put_int m.tokens.expire_at (put_int m.tokens.refreshed_at []))))

abbrev get_metadata : Bytes → Metadata
get_metadata b₀ =
    let (created, b₁) = get_int b₀ in
    let (ends, b₂) = get_int b₁ in
    let (timeout, b₃) = get_int b₂ in
    let (expire, b₄) = get_int b₃ in
    let (refreshed, b₅) = get_int b₄ in
    record {
      session = record { created_at = created; ends_at = ends; timeout_at = timeout };
      tokens = record { expire_at = expire; refreshed_at = refreshed };
    }

get_metadata-put_metadata : (m : Metadata) → get_metadata (put_metadata m) ≡ m
get_metadata-put_metadata m = simp get_int-put_int

abbrev put_data : Data → Bytes
put_data d = put_text d.external_session_id (
    put_text d.access_token (
      put_text d.id_token
        (put_text d.refresh_token (put_text d.id_token_jwt_id (put_metadata d.metadata)))))

abbrev get_data : Bytes → Data
get_data b₀ =
    let (id, b₁) = get_text b₀ in
    let (access, b₂) = get_text b₁ in
    let (id_token, b₃) = get_text b₂ in
    let (refresh, b₄) = get_text b₃ in
    let (jwt_id, b₅) = get_text b₄ in
    record {
      external_session_id = id;
      access_token = access;
      id_token = id_token;
      refresh_token = refresh;
      id_token_jwt_id = jwt_id;
      metadata = get_metadata b₅;
    }

abbrev pub plain_json : Json
plain_json = record { marshal = λ d. ok (put_data d); unmarshal = λ b. ok (get_data b) }

get_data-put_data : (d : Data) → get_data (put_data d) ≡ d
get_data-put_data d = simp (get_text-put_text, get_int-put_int)

pub plain_json-IsJson : IsJson plain_json
plain_json-IsJson = record {
  reads = λ d b e.
      let same : put_data d ≡ b = cc in
      ap (λ x. ok (get_data x)) (sym same) ∙ ap ok (get_data-put_data d);
}
