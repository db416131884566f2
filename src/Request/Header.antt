-- ===== src/Request/Header.antt =====
-- Header lines of a request, src/main.c: `downcase`, the spaces behind the colon, and a whole line.
use gusher.Base.{
  ℕ, zero, suc, ◌+◌, ◌<◌, ◌≡◌, ◌≢◌, refl, sym, ap, ◌∙◌, not, ◌&&◌, true, false, Bytes, [], ◌∷◌,
  ◌++◌, append_assoc, map, ◌==◌, ok, length, length-append, All, is_space, is_lower, to_lower,
  arith,
}
use gusher.Buffer.Border.{Avoids, IsText, load_at, store_at, index-hit, text_at_lem}
use gusher.Request.{
  Request, Value, string, downcase_loop, downcase, skip_spaces, header_line, add_line,
}
use gusher.Request.Start.{Avoids-IsText}

pub record Header : Type 0 where
  pub name : Bytes
  pub spaces : Bytes
  pub value : Bytes

abbrev pub header_bytes : Header → Bytes
header_bytes h = h.name ++ b':' ∷ (h.spaces ++ h.value)

abbrev StartsPlain : Bytes → Type 0
StartsPlain [] = Unit
StartsPlain (x ∷ xs) = is_space x ≡ false

-- The name has no colon, and the value does not start with a space.
pub record IsHeader (h : Header) : Type 0 where
  pub name_text : Avoids b':' h.name
  pub all_spaces : All (λ x. (x ≢ 0) × (is_space x ≡ true)) h.spaces
  pub value_text : IsText h.value
  pub value_start : StartsPlain h.value

abbrev pub header_pair : Header → Bytes × Value
header_pair h = (map to_lower h.name, string h.value)

to_lower_positive : (x : ℕ) → x ≢ 0 → to_lower x ≢ 0
unfolding to_lower is_lower
to_lower_positive x h = ground arith

IsText-map : (s : Bytes) → IsText s → IsText (map to_lower s)
IsText-map [] h = tt
IsText-map (x ∷ s) h = (to_lower_positive x h.0, IsText-map s h.1)

length-map : (s : Bytes) → length (map to_lower s) ≡ length s
length-map [] = refl
length-map (x ∷ s) = ap suc (length-map s)

downcase_loop_lem :
    (fuel : ℕ) (s mem pre tail : Bytes) (pt : ℕ)
    → mem ≡ pre ++ (s ++ 0 ∷ tail)
    → pt ≡ length pre
    → IsText s
    → length s < fuel
    → downcase_loop fuel mem pt ≡ ok (pre ++ (map to_lower s ++ 0 ∷ tail))
unfolding downcase_loop
downcase_loop_lem zero s mem pre tail pt m e h f = absurd (omega arith)
downcase_loop_lem (suc fuel) [] mem pre tail pt m e h f =
    rw (load_at mem pre 0 tail pt m e) (ap ok m)
downcase_loop_lem (suc fuel) (x ∷ s) mem pre tail pt m e h f =
    let rest = s ++ 0 ∷ tail in
    let y = to_lower x in
    let pre' = pre ++ y ∷ [] in
    let ne : (x == 0) ≡ false = ground (arith, h.0) in
    let next =
      downcase_loop_lem fuel s (pre ++ y ∷ rest) pre' tail (suc pt)
        (sym (append_assoc pre (y ∷ []) rest)) (omega (arith, e, length-append pre (y ∷ []))) h.1
        (omega arith) in
    rw (load_at mem pre x rest pt m e, ne, store_at mem pre x rest pt y m e)
      (next ∙ ap ok (append_assoc pre (y ∷ []) (map to_lower s ++ 0 ∷ tail)))

skip_spaces_lem :
    (fuel : ℕ) (spaces mem pre : Bytes) (x : ℕ) (tail : Bytes) (i : ℕ)
    → mem ≡ pre ++ (spaces ++ x ∷ tail)
    → i ≡ length pre
    → All (λ x. (x ≢ 0) × (is_space x ≡ true)) spaces
    → (not (x == 0) && is_space x) ≡ false
    → length spaces < fuel
    → skip_spaces fuel mem i ≡ ok (i + length spaces)
unfolding skip_spaces
skip_spaces_lem zero spaces mem pre x tail i m e h stop f = absurd (omega arith)
skip_spaces_lem (suc fuel) [] mem pre x tail i m e h stop f =
    rw (load_at mem pre x tail i m e, stop) (ap ok (omega arith))
skip_spaces_lem (suc fuel) (s ∷ spaces) mem pre x tail i m e h stop f =
    let rest = spaces ++ x ∷ tail in
    let pre' = pre ++ s ∷ [] in
    let go : (not (s == 0) && is_space s) ≡ true = ground (arith, h.0.0, h.0.1) in
    let next =
      skip_spaces_lem fuel spaces mem pre' x tail (suc i) (m ∙ sym (append_assoc pre (s ∷ []) rest))
        (omega (arith, e, length-append pre (s ∷ []))) h.1 stop (omega arith) in
    rw (load_at mem pre s rest i m e, go) (next ∙ ap ok (omega arith))

-- The first byte of a value and its NUL ends the spaces.
skip_spaces-value :
    (fuel : ℕ) (spaces value mem pre more : Bytes) (i : ℕ)
    → mem ≡ pre ++ (spaces ++ (value ++ 0 ∷ more))
    → i ≡ length pre
    → All (λ x. (x ≢ 0) × (is_space x ≡ true)) spaces
    → StartsPlain value
    → length spaces < fuel
    → skip_spaces fuel mem i ≡ ok (i + length spaces)
skip_spaces-value fuel spaces [] mem pre more i m e h v f =
    skip_spaces_lem fuel spaces mem pre 0 more i m e h refl f
skip_spaces-value fuel spaces (x ∷ value) mem pre more i m e h v f =
    skip_spaces_lem fuel spaces mem pre x (value ++ 0 ∷ more) i m e h (ground (arith, v)) f

-- A header line adds its pair to a request that is not empty.
pub add_line-header :
    (mem : Bytes) (h : Header) (more : Bytes) (pair : Bytes × Value) (request : Request)
    → mem ≡ header_bytes h ++ 0 ∷ more
    → IsHeader h
    → (mem' : Bytes) × (add_line mem (pair ∷ request) ≡ ok (mem', header_pair h ∷ pair ∷ request))
      × (length mem' ≡ length mem)
unfolding add_line header_line downcase
add_line-header mem h more pair request m w =
    let name = h.name in
    let text = h.value ++ 0 ∷ more in
    let rest = h.spaces ++ text in
    let lower = map to_lower name in
    let m1 : mem ≡ name ++ b':' ∷ rest =
      m
      ∙ append_assoc name (b':' ∷ (h.spaces ++ h.value)) (0 ∷ more)
      ∙ ap (λ t. name ++ b':' ∷ t) (append_assoc h.spaces h.value (0 ∷ more)) in
    let cut = name ++ 0 ∷ rest in
    let front = name ++ 0 ∷ [] in
    let behind : length name + 1 ≡ length front = omega (arith, length-append name (0 ∷ [])) in
    let room : length cut
        ≡ length name + (1 + (length h.spaces + (length h.value + suc (length more)))) =
      omega (
        arith,
        length-append name (0 ∷ rest),
        length-append h.spaces text,
        length-append h.value (0 ∷ more),
      ) in
    let low = lower ++ 0 ∷ rest in
    let head = (lower ++ 0 ∷ []) ++ h.spaces in
    let low1 : low ≡ head ++ text =
      sym (append_assoc lower (0 ∷ []) rest) ∙ sym (append_assoc (lower ++ 0 ∷ []) h.spaces text) in
    let at : length name + 1 + length h.spaces ≡ length head = omega (
      arith,
      length-map name,
      length-append lower (0 ∷ []),
      length-append (lower ++ 0 ∷ []) h.spaces,
    ) in
    let name_text = Avoids-IsText b':' name w.name_text in
    (
      low,
      rw
          (
            index-hit mem [] 0 b':' name rest m1 refl w.name_text,
            store_at mem name b':' rest (0 + length name) 0 m1 (omega arith),
            skip_spaces-value (length cut) h.spaces h.value cut front more (0 + length name + 1)
                (sym (append_assoc name (0 ∷ []) rest)) (omega (arith, behind)) w.all_spaces
                w.value_start (omega (arith, room)),
            downcase_loop_lem (length cut) name cut [] rest 0 refl refl name_text
                (omega (arith, room)),
            text_at_lem low [] 0 lower rest refl refl (IsText-map name name_text),
            text_at_lem low head (0 + length name + 1 + length h.spaces) h.value more low1
                (omega (arith, at)) w.value_text,
          )
          refl,
      rw m1 (
          omega (
            arith,
            length-map name,
            length-append lower (0 ∷ rest),
            length-append name (b':' ∷ rest),
          )),
    )
