-- ===== src/Tests/Codec.antt =====
-- A codec of tokens that keeps what the development asks of one.
use beaverdeck.Base.{
  ◌+◌, ◌-◌, ◌≡◌, refl, false, Option, none, some, [], ◌∷◌, ◌++◌, nat_eq, any, arith, if◌then◌else◌,
}
use beaverdeck.Text.{Str}
use beaverdeck.Text.Split.{has_char}
use beaverdeck.Users.Sessions.{SessionTokenPayload, TokenCodec}
use beaverdeck.Users.Sessions.Fresh.{IsFaithful}

-- Characters moved above 50, and closed by 47.
unfoldable pub shift : Str → Str
shift [] = 47 ∷ []
shift (c ∷ s) = (c + 50) ∷ shift s

unfoldable pub unshift : Str → Str × Str
unshift [] = ([], [])
unshift (c ∷ s) =
    let rest = unshift s in if nat_eq c 47 then ([], s) else ((c - 50) ∷ rest.0, rest.1)

abbrev encode_payload : SessionTokenPayload → Str
encode_payload p =
    shift p.username
    ++ (shift p.auth_source
        ++ (shift p.role ++ shift (p.session_version ∷ p.issued_at ∷ p.expires_at ∷ [])))

abbrev numbers : Str → Str → Str → Str → Option SessionTokenPayload
numbers u a r (v ∷ i ∷ e ∷ []) = some (record {
  username = u;
  auth_source = a;
  role = r;
  session_version = v;
  issued_at = i;
  expires_at = e;
})
numbers u a r _ = none

abbrev decode_payload : Str → Option SessionTokenPayload
decode_payload s =
    let (u, s1) = unshift s in
    let (a, s2) = unshift s1 in let (r, s3) = unshift s2 in numbers u a r (unshift s3).0

unshift-shift : (s t : Str) → unshift (shift s ++ t) ≡ (s, t)
unfolding shift unshift
unshift-shift [] t = refl
unshift-shift (c ∷ s) t = ground (arith, unshift-shift s t)

dots-shift : (s t : Str) → has_char 46 (shift s ++ t) ≡ has_char 46 t
unfolding shift any
dots-shift [] t = refl
dots-shift (c ∷ s) t = ground (arith, dots-shift s t)

unshift-shift_end : (s : Str) → unshift (shift s) ≡ (s, [])
unfolding shift unshift
unshift-shift_end [] = refl
unshift-shift_end (c ∷ s) = ground (arith, unshift-shift_end s)

dots-shift_end : (s : Str) → has_char 46 (shift s) ≡ false
unfolding shift any
dots-shift_end [] = refl
dots-shift_end (c ∷ s) = ground (arith, dots-shift_end s)

payload_back : (p : SessionTokenPayload) → decode_payload (encode_payload p) ≡ some p
payload_back p = rw (unshift-shift, unshift-shift, unshift-shift, unshift-shift_end) refl

abbrev pub test_codec : TokenCodec
test_codec = record {
  encode = encode_payload;
  decode = decode_payload;
  encode_signature = shift;
  decode_signature = λ s. some (unshift s).0;
}

pub test_codec-IsFaithful : IsFaithful test_codec
test_codec-IsFaithful = record {
  payloads = payload_back;
  signatures = λ b. rw unshift-shift_end refl;
  payload_dots = λ p. rw (dots-shift, dots-shift, dots-shift) (dots-shift_end _);
  signature_dots = dots-shift_end;
}
