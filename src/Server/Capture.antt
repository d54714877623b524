-- ===== src/Server/Capture.antt =====
-- pkg/server/middleware/capture.go and types.go: a response writer that keeps what passes through it. A
-- handler is the calls that it makes of the writer, and the writer below is other code over a state.
use uni_core.Base.{
  ℕ, zero, suc, ◌≡◌, refl, sym, ap, subst, ◌∙◌, Bool, true, not, ◌&&◌, ◌||◌, leb, nat_eq, ◌⊎◌, inl,
  inr, Option, none, some, List, [], ◌∷◌, ◌++◌,
}
use uni_core.Errors.{GoError}
use mathlib.Core.List.{append-nil, append_assoc}

abbrev pub Bytes : Type 0
Bytes = List ℕ

-- A read from a source returns the bytes that were taken from it, beside the count that was written.
pub record HttpWriter (W : Type 0) : Type 0 where
  pub write : Bytes → W → ℕ × (Option GoError × W)
  pub write_header : ℕ → W → W
  pub read_from : Bytes → W → Bytes × (ℕ × (Option GoError × W))

pub record Capture : Type 0 where
  pub body : Bytes
  pub code : ℕ

pub data WriterCall : Type 0 where
  write : Bytes → WriterCall
  write_header : ℕ → WriterCall
  read_from : Bytes → WriterCall

abbrev pub new_capture : Capture
new_capture = record { body = []; code = 200 }

-- p[:n], where n is at most the length of p.
abbrev pub take : ℕ → Bytes → Bytes
take zero p = []
take (suc n) [] = []
take (suc n) (b ∷ p) = b ∷ take n p

-- The last status that is set.
abbrev pub code_after : ℕ → List WriterCall → ℕ
code_after code [] = code
code_after code (write p ∷ calls) = code_after code calls
code_after code (write_header new ∷ calls) = code_after new calls
code_after code (read_from src ∷ calls) = code_after code calls

module _ {W : Type 0} (next : HttpWriter W) where
  -- The hooks of Wrap: each passes the call on, and keeps what it gave.
  unfoldable pub hook : WriterCall → Capture × W → Capture × W
  hook (write p) (c, w) =
      let (n, r) = next.write p w in (record c { body = c.body ++ take n p }, r.1)
  hook (write_header code) (c, w) = (record c { code = code }, next.write_header code w)
  hook (read_from src) (c, w) =
      let (taken, r) = next.read_from src w in (record c { body = c.body ++ taken }, r.1.1)

  abbrev served : List WriterCall → Capture × W → Capture × W
  served [] s = s
  served (call ∷ calls) s = served calls (hook call s)

  -- The capture, and what the handler left of the writer below.
  unfoldable pub capture_response : List WriterCall → W → Capture × W
  unfolding hook
  capture_response calls w = served calls (new_capture, w)

  -- The same calls of the writer itself: what they leave, and what it took.
  abbrev pub called : WriterCall → W → W
  called (write p) w = (next.write p w).1.1
  called (write_header code) w = next.write_header code w
  called (read_from src) w = (next.read_from src w).1.1.1

  abbrev pub call_all : List WriterCall → W → W
  call_all [] w = w
  call_all (call ∷ calls) w = call_all calls (called call w)

  abbrev pub took : WriterCall → W → Bytes
  took (write p) w = take (next.write p w).0 p
  took (write_header code) w = []
  took (read_from src) w = (next.read_from src w).0

  abbrev pub took_all : List WriterCall → W → Bytes
  took_all [] w = []
  took_all (call ∷ calls) w = took call w ++ took_all calls (called call w)

  served_lem :
      (calls : List WriterCall) (c : Capture) (w : W)
      → served calls (c, w) ≡ (
        record { body = c.body ++ took_all calls w; code = code_after c.code calls },
        call_all calls w,
      )
  unfolding hook
  served_lem [] c w = ap (λ b. (record c { body = b }, w)) (sym (append-nil c.body))
  served_lem (write p ∷ calls) c w =
      let took_now = take (next.write p w).0 p in
      let w' = (next.write p w).1.1 in
      served_lem calls (record c { body = c.body ++ took_now }) w'
      ∙ ap (λ b. (record { body = b; code = code_after c.code calls }, call_all calls w'))
          (append_assoc c.body took_now (took_all calls w'))
  served_lem (write_header code ∷ calls) c w =
      served_lem calls (record c { code = code }) (next.write_header code w)
  served_lem (read_from src ∷ calls) c w =
      let took_now = (next.read_from src w).0 in
      let w' = (next.read_from src w).1.1.1 in
      served_lem calls (record c { body = c.body ++ took_now }) w'
      ∙ ap (λ b. (record { body = b; code = code_after c.code calls }, call_all calls w'))
          (append_assoc c.body took_now (took_all calls w'))

  -- A handler leaves the writer as it would without the capture, and the body is what the writer took.
  pub capture_response_lem :
      (calls : List WriterCall) (w : W)
      → capture_response calls w
        ≡ (record { body = took_all calls w; code = code_after 200 calls }, call_all calls w)
  unfolding capture_response
  capture_response_lem calls w = served_lem calls new_capture w

-- A status between 100 and 199 announces another one, except for 101, which is final like those from
-- 200 on.
abbrev pub is_informational : ℕ → Bool
is_informational code = leb 100 code && (leb code 199 && not (nat_eq code 101))

abbrev pub is_final : ℕ → Bool
is_final code = nat_eq code 101 || (leb 200 code && leb code 999)

-- net/http, by its documentation: an informational header is sent on its own and leaves the status open,
-- and the status is that of the first final header, or 200 where a body comes first.
pub record IsHttpWriter {W : Type 0} (next : HttpWriter W) (status : W → Option ℕ) : Type 0 where
  pub informational :
      (code : ℕ) (w : W)
      → is_informational code ≡ true
      → status w ≡ none
      → status (next.write_header code w) ≡ none
  pub first_header :
      (code : ℕ) (w : W)
      → is_final code ≡ true
      → status w ≡ none
      → status (next.write_header code w) ≡ some code
  pub first_write : (p : Bytes) (w : W) → status w ≡ none → status (next.write p w).1.1 ≡ some 200
  pub first_read :
      (src : Bytes) (w : W) → status w ≡ none → status (next.read_from src w).1.1.1 ≡ some 200
  pub kept :
      (call : WriterCall) (w : W) (s : ℕ) → status w ≡ some s → status (called next call w) ≡ some s

-- No call sets the status.
abbrev pub IsBody : List WriterCall → Type 0
IsBody [] = Unit
IsBody (write p ∷ calls) = IsBody calls
IsBody (write_header code ∷ calls) = ⊥
IsBody (read_from src ∷ calls) = IsBody calls

-- Informational headers, a final one, and then no other.
abbrev pub NamesStatus : List WriterCall → Type 0
NamesStatus [] = ⊥
NamesStatus (write p ∷ calls) = ⊥
NamesStatus (read_from src ∷ calls) = ⊥
NamesStatus (write_header code ∷ calls) =
    ((is_final code ≡ true) × IsBody calls) ⊎ ((is_informational code ≡ true) × NamesStatus calls)

-- The status is set first, if it is set.
abbrev pub SetsStatusFirst : List WriterCall → Type 0
SetsStatusFirst calls = IsBody calls ⊎ NamesStatus calls

-- The status that the client gets, once the handler has returned.
abbrev pub sent : Option ℕ → ℕ
sent none = 200
sent (some code) = code

-- The writer is as the handler leaves it without a capture, the body is what it took, and the status is
-- what the client gets.
abbrev pub IsFaithful :
    {W : Type 0} → HttpWriter W → (W → Option ℕ) → List WriterCall → W → Capture × W → Type 0
IsFaithful next status calls w (c, v) =
    (v ≡ call_all next calls w) × (c.body ≡ took_all next calls w) × (c.code ≡ sent (status v))

body-code : (code : ℕ) (calls : List WriterCall) → IsBody calls → code_after code calls ≡ code
body-code code [] b = refl
body-code code (write p ∷ calls) b = body-code code calls b
body-code code (write_header new ∷ calls) b = absurd b
body-code code (read_from src ∷ calls) b = body-code code calls b

module _ {W : Type 0} (next : HttpWriter W) (status : W → Option ℕ)
    (h : IsHttpWriter next status) where
  kept_all :
      (calls : List WriterCall) (w : W) (s : ℕ)
      → status w ≡ some s
      → status (call_all next calls w) ≡ some s
  kept_all [] w s e = e
  kept_all (call ∷ calls) w s e = kept_all calls (called next call w) s (h.kept call w s e)

  body_sent :
      (calls : List WriterCall) (w : W)
      → IsBody calls
      → status w ≡ none
      → sent (status (call_all next calls w)) ≡ 200
  body_sent [] w b e = ap sent e
  body_sent (write p ∷ calls) w b e =
      ap sent (kept_all calls (called next (write p) w) 200 (h.first_write p w e))
  body_sent (read_from src ∷ calls) w b e =
      ap sent (kept_all calls (called next (read_from src) w) 200 (h.first_read src w e))
  body_sent (write_header code ∷ calls) w b e = absurd b

  body_status :
      (calls : List WriterCall) (w : W)
      → IsBody calls
      → status w ≡ none
      → code_after 200 calls ≡ sent (status (call_all next calls w))
  body_status calls w b e = body-code 200 calls b ∙ sym (body_sent calls w b e)

  named_status :
      (before : ℕ) (calls : List WriterCall) (w : W)
      → NamesStatus calls
      → status w ≡ none
      → code_after before calls ≡ sent (status (call_all next calls w))
  named_status before [] w b e = absurd b
  named_status before (write p ∷ calls) w b e = absurd b
  named_status before (read_from src ∷ calls) w b e = absurd b
  named_status before (write_header code ∷ calls) w (inl (f, b)) e =
      body-code code calls b
      ∙ sym (ap sent (kept_all calls (next.write_header code w) code (h.first_header code w f e)))
  named_status before (write_header code ∷ calls) w (inr (i, b)) e =
      named_status code calls (next.write_header code w) b (h.informational code w i e)

  client_status :
      (calls : List WriterCall) (w : W)
      → SetsStatusFirst calls
      → status w ≡ none
      → code_after 200 calls ≡ sent (status (call_all next calls w))
  client_status calls w (inl b) e = body_status calls w b e
  client_status calls w (inr b) e = named_status 200 calls w b e

  -- With a writer that has, as net/http documents, the status of the first header that is not
  -- informational, or 200 where a body comes first: for any calls of a handler that sets one final
  -- status first, informational ones before it, or none of any kind, CaptureResponse leaves the
  -- writer as the handler alone would, its body is what the writer took of the writes and of the
  -- sources read from, and its status code is the one that the client gets.
  pub capture_response-IsFaithful :
      (calls : List WriterCall) (w : W)
      → SetsStatusFirst calls
      → status w ≡ none
      → IsFaithful next status calls w (capture_response next calls w)
  capture_response-IsFaithful calls w b e =
      subst (IsFaithful next status calls w) (sym (capture_response_lem next calls w))
        (refl, refl, client_status calls w b e)

  -- Of several final statuses, the client gets the first, and the capture keeps the last.
  superfluous_header :
      (first last : ℕ) (w : W)
      → is_final first ≡ true
      → status w ≡ none
      → let (c, v) = capture_response next (write_header first ∷ write_header last ∷ []) w in
        (c.code ≡ last) × (status v ≡ some first)
  unfolding capture_response
  superfluous_header first last w f e = (
    refl,
    kept_all (write_header last ∷ []) (next.write_header first w) first
        (h.first_header first w f e),
  )

  -- After an informational header and a body, the client has 200, and the capture the informational
  -- status.
  informational_header :
      (code : ℕ) (p : Bytes) (w : W)
      → is_informational code ≡ true
      → status w ≡ none
      → let (c, v) = capture_response next (write_header code ∷ write p ∷ []) w in
        (c.code ≡ code) × (status v ≡ some 200)
  unfolding capture_response
  informational_header code p w i e =
      (refl, h.first_write p (next.write_header code w) (h.informational code w i e))
