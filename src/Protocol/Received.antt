-- ===== src/Protocol/Received.antt =====
-- What ReadFrame and ParseRequest (pkg/protocol) make of the bytes of a connection.
use kafscale.Base.{
  ℕ, zero, suc, ◌<◌, ◌≤◌, ◌≡◌, sym, ap, List, [], ◌∷◌, ok, arith, Bool-cases, inl, inr,
  Result-cases, length, take, drop, length-drop, ltb, ok-injective,
}
use kafscale.Base.Int.{ℤ, pos, negsuc, IsI32, signed32, signed32-IsI32, ltb_ℤ}
use kafscale.Base.Bytes.{Bytes, All, IsByte, uint}
use kafscale.Protocol.Reader.{
  Reader, ◌>>=◌, ◌>>◌, done, read, read_int16, read_int32, read_nullable_string, fail_when,
  invalid_length,
}
use kafscale.Protocol.Frame.{read_frame}
use kafscale.Protocol.Request.Header.{
  RequestHeader, parse_request_header, tags, is_flexible_request, api_of,
}
use kafscale.Protocol.Request.{Request, read_known, parse_request}

bind_inv :
    {A B : Type 0} (r : Reader A) (next : A → Reader B) {bs rest : Bytes} {b : B}
    → (r >>= next) bs ≡ ok (b, rest)
    → (a : A) × (mid : Bytes) × (r bs ≡ ok (a, mid)) × (next a mid ≡ ok (b, rest))
bind_inv r next {bs} e = elim (Result-cases (r bs)) [
  | inl ((a, mid), h) ↦ (a, mid, h, rw (h, ◌>>=◌) at e)
  | inr (x, h) ↦ cc (rw (h, ◌>>=◌) at e)
]

All-take : {A : Type 0} (P : A → Type 0) (n : ℕ) (xs : List A) → All P xs → All P (take n xs)
All-take P zero xs h = tt
All-take P (suc n) [] h = tt
All-take P (suc n) (x ∷ xs) h = (h.0, All-take P n xs h.1)

All-drop : {A : Type 0} (P : A → Type 0) (n : ℕ) (xs : List A) → All P xs → All P (drop n xs)
All-drop P zero xs h = h
All-drop P (suc n) [] h = tt
All-drop P (suc n) (x ∷ xs) h = All-drop P n xs h.1

uint-lt : (bs : Bytes) → All IsByte bs → uint (take 4 bs) < 4294967296
unfolding uint
uint-lt [] h = omega arith
uint-lt (a ∷ []) h = omega arith
uint-lt (a ∷ b ∷ []) h = omega arith
uint-lt (a ∷ b ∷ c ∷ []) h = omega arith
uint-lt (a ∷ b ∷ c ∷ d ∷ bs) h = omega arith

read_int32-ok :
    (bs rest : Bytes) (a : ℤ)
    → read_int32 bs ≡ ok (a, rest)
    → (a ≡ signed32 (uint (take 4 bs))) × (rest ≡ drop 4 bs) × (4 ≤ length bs)
unfolding read_int32 read
read_int32-ok bs rest a e = elim (Bool-cases (ltb (length bs) 4)) [
  | inl short ↦ cc (rw (short, read_int32, ◌>>=◌, read) at e)
  | inr enough ↦
      let same = ok-injective (rw (enough, read_int32, ◌>>=◌, read) at e) in
      (sym (ap (λ z. z.0) same), sym (ap (λ z. z.1) same), ground arith)
]

read_int16-ok : (bs rest : Bytes) (a : ℤ) → read_int16 bs ≡ ok (a, rest) → rest ≡ drop 2 bs
unfolding read_int16 read
read_int16-ok bs rest a e = elim (Bool-cases (ltb (length bs) 2)) [
  | inl short ↦ cc (rw (short, read_int16, ◌>>=◌, read) at e)
  | inr enough ↦ sym (ap (λ z. z.1) (ok-injective (rw (enough, read_int16, ◌>>=◌, read) at e)))
]

read_int32-IsI32 :
    (bs rest : Bytes) (a : ℤ) → All IsByte bs → read_int32 bs ≡ ok (a, rest) → IsI32 a
read_int32-IsI32 bs rest a bytes e =
    let (value, _, _) = read_int32-ok bs rest a e in
    rw value (signed32-IsI32 (uint (take 4 bs)) (uint-lt bs bytes))

read-ok :
    (n : ℤ) (bs v rest : Bytes)
    → read n bs ≡ ok (v, rest)
    → (length rest ≤ length bs) × (All IsByte bs → All IsByte v × All IsByte rest)
unfolding read
read-ok (pos k) bs v rest e = elim (Bool-cases (ltb (length bs) k)) [
  | inl short ↦ cc (rw short at e)
  | inr enough ↦
      let same = ok-injective (rw enough at e) in
      (
        rw (← ap (λ z. z.1) same) (omega (arith, length-drop k bs)),
        λ bytes. (
          rw (← ap (λ z. z.0) same) (All-take IsByte k bs bytes),
          rw (← ap (λ z. z.1) same) (All-drop IsByte k bs bytes),
        ),
      )
]
read-ok (negsuc k) bs v rest e = cc

-- A frame that is read takes bytes from the connection.
pub read_frame-ok :
    (bs payload later : Bytes)
    → read_frame bs ≡ ok (payload, later)
    → (length later < length bs) × (All IsByte bs → All IsByte payload × All IsByte later)
unfolding read_frame
read_frame-ok bs payload later e =
    let (l, mid, sized, got) =
      bind_inv read_int32 (λ l. do fail_when (ltb_ℤ l (pos 0)) invalid_length; read l) e in
    let (_, mid_is, four) = read_int32-ok bs mid l sized in
    elim (Bool-cases (ltb_ℤ l (pos 0))) [
      | inl negative ↦ cc (rw negative at got)
      | inr sane ↦
          let (shorter, bytes) = read-ok l mid payload later (rw sane at got) in
          (
            omega (arith, ap length mid_is, length-drop 4 bs),
            λ all. bytes (rw mid_is (All-drop IsByte 4 bs all)),
          )
    ]

parse_request_header-IsI32 :
    (payload left : Bytes) (header : RequestHeader)
    → All IsByte payload
    → parse_request_header payload ≡ ok (header, left)
    → IsI32 header.correlation_id
unfolding parse_request_header
parse_request_header-IsI32 payload left header bytes e = elim (Result-cases (read_int16 payload)) [
  | inr (x, failed) ↦ cc (rw (failed, parse_request_header, ◌>>=◌) at e)
  | inl ((key, p1), k) ↦ elim (Result-cases (read_int16 p1)) [
    | inr (x, failed) ↦ cc (rw (k, parse_request_header, ◌>>=◌, failed) at e)
    | inl ((version, p2), v) ↦ elim (Result-cases (read_int32 p2)) [
      | inr (x, failed) ↦ cc (rw (k, parse_request_header, ◌>>=◌, v, failed) at e)
      | inl ((id, p3), i) ↦ elim (Result-cases (read_nullable_string p3)) [
        | inr (x, failed) ↦ cc (rw (k, parse_request_header, ◌>>=◌, v, i, failed) at e)
        | inl ((client, p4), c) ↦ elim (Result-cases (tags (is_flexible_request key version) p4)) [
          | inr (x, failed) ↦ cc (rw (k, parse_request_header, ◌>>=◌, v, i, c, ◌>>◌, failed) at e)
          | inl ((u, p5), t) ↦
              let same =
                ok-injective (rw (k, parse_request_header, ◌>>=◌, v, i, c, ◌>>◌, t) at e) in
              rw (← ap (λ z. z.0) same) (
                read_int32-IsI32 p2 p3 id
                  (rw (read_int16-ok p1 p2 version v, read_int16-ok payload p1 key k)
                    (All-drop IsByte 2 (drop 2 payload) (All-drop IsByte 2 payload bytes)))
                  i)
        ]
      ]
    ]
  ]
]

-- The correlation id of a request that is parsed is an int32.
pub parse_request-IsI32 :
    (payload left : Bytes) (header : RequestHeader) (req : Request)
    → All IsByte payload
    → parse_request payload ≡ ok ((header, req), left)
    → IsI32 header.correlation_id
unfolding parse_request
parse_request-IsI32 payload left header req bytes e =
    elim (Result-cases (parse_request_header payload)) [
      | inr (x, failed) ↦ cc (rw (failed, parse_request, ◌>>=◌) at e)
      | inl ((h, p), parsed) ↦
          let e' = rw (parsed, parse_request, ◌>>=◌) at e in
          let (body, mid, got, made) =
            bind_inv (read_known (api_of h.api_key) h.api_version) (λ body. done (h, body)) e' in
          rw (← ap (λ z. z.0.0) (ok-injective made))
            (parse_request_header-IsI32 payload p h bytes parsed)
    ]
