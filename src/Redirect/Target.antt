-- ===== src/Redirect/Target.antt =====
-- Where a redirect can lead (pkg/handler/url/url.go: CanonicalRedirect, RedirectDecoded).
use wonderwall.Base.{
  String, ◌==◌, ◌≡◌, inl, inr, [], Result, ok, Bool-cases, arith, if◌then◌else◌, eq_iff, sym, ◌∙◌,
  ap,
}
use wonderwall.Http.{Bytes, Encoding, IsEncoding, RawUrlEncoding, Request, get}
use wonderwall.Redirect.{redirect_encoded, redirect_decoded, redirect_encoded_parameter}

-- The documented laws of the encoding, and that of the empty text.
pub record IsRawUrlEncoding (encoding : Encoding) (raw : RawUrlEncoding) : Type 0 where
  pub decodes : (b : Bytes) → Path (Result Bytes) (raw.decode (raw.encode b)) (ok b)
  pub empty : (b : Bytes) → raw.encode b ≡ "" → Path Bytes b []
  pub no_bytes : Path String (encoding.to_string []) ""

-- A redirect that stands in the parameter in the encoding of `LoginURL` is read back.
pub redirect_decoded-redirect_encoded :
    (encoding : Encoding) (raw : RawUrlEncoding)
    → IsEncoding encoding
    → IsRawUrlEncoding encoding raw
    → (r : Request) (target : String)
    → get r.query redirect_encoded_parameter ≡ redirect_encoded encoding raw target
    → redirect_decoded encoding raw r ≡ target
unfolding redirect_decoded redirect_encoded
redirect_decoded-redirect_encoded encoding raw laws raw_laws r target h =
    let b = encoding.to_bytes target in
    let exact : target ≡ encoding.to_string b = sym (laws.string-bytes target) in
    elim (Bool-cases (raw.encode b == "")) [
      | inl t ↦
          let none_left : b ≡ [] = raw_laws.empty b ((eq_iff _ _).0 t) in
          let nothing : target ≡ "" = exact ∙ ap encoding.to_string none_left ∙ raw_laws.no_bytes in
          ground arith
      | inr f ↦ rw h (rw (f, if◌then◌else◌) (rw (raw_laws.decodes b) (sym exact)))
    ]
