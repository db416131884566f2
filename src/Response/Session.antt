-- ===== src/Response/Session.antt =====
-- Sessions, src/main.c: the cookie that `run_responder` gives a client, and what it makes of it when
-- the client sends it back.
use gusher.Base.{
  ℕ, suc, ◌*◌, ◌/◌, ◌%◌, ◌≤◌, ◌<◌, ◌≡◌, refl, ◌⊎◌, Bytes, List, [], ◌∷◌, ◌++◌, Option, none, some,
  ok, ◌>>=◌, get_elem?, get_elem?-some, some_injective, subst, zero, length, All, arith,
}
use gusher.CString.{codes, strcmp_zero}
use gusher.Form.{assq_ref, to_locale_string}
use gusher.Handlers.{HandlerEntry}
use gusher.Request.{Request, string}
use gusher.Response.{
  Outside, hex, put_uuid, cookie_of, session_cookie, request_handler, session_of, run_handler,
  run_responder, set_cookie, with_session,
}

-- A digit that `[0-9a-f]` matches.
abbrev pub IsHex : ℕ → Type 0
IsHex c = ((b'0' ≤ c) × (c ≤ b'9')) ⊎ ((b'a' ≤ c) × (c ≤ b'f'))

All-get_elem? : (P : ℕ → Type 0) (xs : Bytes) (i a : ℕ) → All P xs → get_elem? xs i ≡ some a → P a
All-get_elem? P [] i a h e = absurd cc
All-get_elem? P (x ∷ xs) zero a h e = subst P (some_injective e) h.0
All-get_elem? P (x ∷ xs) (suc i) a h e = All-get_elem? P xs i a h.1 e

All-hex : All IsHex hex
All-hex = omega arith

hex_digit : (i : ℕ) → i < 16 → (c : ℕ) × (get_elem? hex i ≡ some c) × IsHex c
hex_digit i l = let (c, e) = get_elem?-some hex i l in (c, e, All-get_elem? IsHex hex i c All-hex e)

put_uuid-IsHex :
    (out : Bytes)
    → All (λ b. b < 256) out
    → (sid : Bytes) × (put_uuid out ≡ ok sid) × All IsHex sid × (length sid ≡ 2 * length out)
unfolding put_uuid
put_uuid-IsHex [] h = ([], refl, tt, refl)
put_uuid-IsHex (b ∷ out) h =
    let (high, e1, h1) = hex_digit (b / 16) (omega (arith, h.0)) in
    let (low, e2, h2) = hex_digit (b % 16) (omega arith) in
    let (sid, e3, h3, l) = put_uuid-IsHex out h.1 in
    (high ∷ low ∷ sid, rw (e1, e2, e3) refl, (h1, (h2, h3)), omega (arith, l))

-- What the pattern of the cookie finds in a text that is a cookie.
abbrev pub CookiePat : (Bytes → Option Bytes) → Type 0
CookiePat cookie_pat =
    (sid : Bytes)
    → All IsHex sid
    → 1 ≤ length sid
    → cookie_pat (codes "GUSHERID=" ++ sid) ≡ some sid

-- The same client again, with the cookie that it was given.
abbrev pub again : Bytes → Request → Request
again sid request = (codes "cookie", string (codes "GUSHERID=" ++ sid)) ∷ request

later_handler :
    {H : Type 0} (lib : Outside H) (handlers : List (HandlerEntry H)) (sid : Bytes)
    (later : Request)
    → request_handler lib handlers (again sid later) ≡ request_handler lib handlers later
unfolding request_handler assq_ref strcmp_zero
later_handler lib handlers sid later = refl

kept_cookie :
    {H : Type 0} (lib : Outside H) (sid : Bytes) (later : Request)
    → lib.cookie_pat (codes "GUSHERID=" ++ sid) ≡ some sid
    → session_cookie lib (again sid later) ≡ ok (some sid)
unfolding session_cookie cookie_of assq_ref strcmp_zero to_locale_string
kept_cookie lib sid later e = rw e refl

-- A request that has a responder and no session is given a session of 32 hexadecimal digits, which
-- the responder sees and the set-cookie header holds; a later request with a responder that brings
-- that cookie back is run with the same session and sets no cookie. The cookie's pattern is taken
-- to match a cookie of hexadecimal digits, and the UUID to be 16 bytes.
pub run_responder-session :
    {H : Type 0} (lib : Outside H) (handlers : List (HandlerEntry H)) (request later : Request)
    → (handler next : H) (path_info next_info : Bytes) → CookiePat lib.cookie_pat
    → All (λ b. b < 256) lib.uuid_generate
    → length lib.uuid_generate ≡ 16
    → request_handler lib handlers request ≡ ok (some (handler, path_info))
    → session_cookie lib request ≡ ok none
    → request_handler lib handlers later ≡ ok (some (next, next_info))
    → (sid : Bytes) × (length sid ≡ 32)
      × All IsHex sid
      × (run_responder lib handlers request ≡ (do
        reply ← lib.call handler (with_session path_info sid request)
        ok (some (set_cookie sid), reply)))
      × (run_responder lib handlers (again sid later) ≡ (do
        reply ← lib.call next (with_session next_info sid (again sid later))
        ok (none, reply)))
unfolding run_responder run_handler session_of
run_responder-session lib handlers request later handler next path_info next_info pat bytes size h c
      n =
    let (sid, e, digits, l) = put_uuid-IsHex lib.uuid_generate bytes in
    (
      sid,
      omega (arith, l, size),
      digits,
      rw (h, c, e) refl,
      rw
          (
            later_handler lib handlers sid later,
            n,
            kept_cookie lib sid later (pat sid digits (omega (arith, l, size))),
          )
          refl,
    )
