-- ===== src/Web/Decode/Painting.antt =====
-- apps/rc-web/src/lib/decode.ts: which JPEG is painted (`paintJpeg`, `jpegLatest`, `jpegBusy`).
use mathlib.Core.Path.{subst}
use ukpc_remote_control.Prelude.{
  ℕ, ◌≡◌, refl, ap, ◌∙◌, Bool, true, false, not, ◌&&◌, ◌||◌, Option, none, some, List, [], ◌∷◌,
  ◌++◌, arith, length, drop, any, ltb, nat_eq, Bool-cases, inl, inr, if◌then◌else◌,
}
use ukpc_remote_control.Web.Decode.{
  Event, text_message, bytes, paint_ended, Output, decode, paint, Viewer, paint_latest, paint_jpeg,
  on_chunk, on_video, on_frame, on_bytes, step, run,
}

-- the JPEG of a message: a frame of type 4 with its whole header
abbrev pub jpeg_in : Event → Option (List ℕ)
jpeg_in text_message = none
jpeg_in paint_ended = none
jpeg_in (bytes []) = none
jpeg_in (bytes (type ∷ rest)) =
    if nat_eq type 4 && not (ltb (length rest) 8) then some (drop 8 rest) else none

abbrev later : Option (List ℕ) → Option (List ℕ) → Option (List ℕ)
later (some jpeg) old = some jpeg
later none old = old

-- the last JPEG of the messages, else the one that was waiting
unfoldable pub newest : Option (List ℕ) → List Event → Option (List ℕ)
newest waiting [] = waiting
newest waiting (e ∷ es) = newest (later (jpeg_in e) waiting) es

abbrev pub is_end : Event → Bool
is_end paint_ended = true
is_end _ = false

abbrev pub is_paint : Output → Bool
is_paint (paint jpeg) = true
is_paint (decode kind body) = false

abbrev pub painted : Option (List ℕ) → List Output
painted none = []
painted (some jpeg) = paint jpeg ∷ []

-- while a JPEG is painted: none is begun, and the given one waits
record Waits (waiting : Option (List ℕ)) (p : Viewer × List Output) : Type 0 where
  busy : p.0.jpeg_busy ≡ true
  latest : p.0.jpeg_latest ≡ waiting
  quiet : any is_paint p.1 ≡ false

Waits-if :
    {waiting : Option (List ℕ)} (b : Bool) (x y : Viewer × List Output)
    → Waits waiting x
    → Waits waiting y
    → Waits waiting (if b then x else y)
Waits-if true x y h k = h
Waits-if false x y h k = k

as_it_is :
    (v : Viewer) (out : List Output)
    → v.jpeg_busy ≡ true
    → any is_paint out ≡ false
    → Waits v.jpeg_latest (v, out)
as_it_is v out h k = record { busy = h; latest = refl; quiet = k }

on_chunk-Waits :
    (v : Viewer) (type : ℕ) (body : List ℕ)
    → v.jpeg_busy ≡ true
    → Waits v.jpeg_latest (on_chunk v type body)
unfolding on_chunk
on_chunk-Waits v type body h = Waits-if (nat_eq type 2) _ _ (as_it_is _ _ h refl) (
    Waits-if (nat_eq type 3) _ _
      (Waits-if v.got_key _ _ (as_it_is _ _ h refl) (as_it_is _ _ h refl))
      (Waits-if v.got_key _ _ (as_it_is _ _ h refl) (as_it_is _ _ h refl)))

Waits-to : {a b : Option (List ℕ)} {p : Viewer × List Output} → a ≡ b → Waits a p → Waits b p
Waits-to {p} e h = subst (λ o. Waits o p) e h

on_frame-Waits :
    (v : Viewer) (type : ℕ) (body : List ℕ)
    → v.jpeg_busy ≡ true
    → Waits (if nat_eq type 4 then some body else v.jpeg_latest) (on_frame v type body)
unfolding on_frame on_video paint_jpeg paint_latest
on_frame-Waits v type body h = elim (Bool-cases (nat_eq type 4)) [
  | inl b ↦ rw (b, h) (record { busy = refl; latest = refl; quiet = refl })
  | inr b ↦ rw b (
      Waits-if (nat_eq type 1) _ _ (as_it_is _ _ h refl)
        (Waits-if v.jpeg_mode _ _ (as_it_is v [] h refl) (on_chunk-Waits v type body h)))
]

on_bytes-Waits :
    (v : Viewer) (buf : List ℕ)
    → v.jpeg_busy ≡ true
    → Waits (later (jpeg_in (bytes buf)) v.jpeg_latest) (on_bytes v buf)
unfolding on_bytes
on_bytes-Waits v [] h = as_it_is v [] h refl
on_bytes-Waits v (type ∷ rest) h = elim (Bool-cases (nat_eq type 123 || ltb (length rest) 8)) [
  | inl b ↦ rw b (Waits-to (ground (arith, b)) (as_it_is v [] h refl))
  | inr b ↦ rw b (Waits-to (ground (arith, b)) (on_frame-Waits v type (drop 8 rest) h))
]

step-Waits :
    (v : Viewer) (e : Event)
    → is_end e ≡ false
    → v.jpeg_busy ≡ true
    → Waits (later (jpeg_in e) v.jpeg_latest) (step v e)
unfolding step
step-Waits v text_message n h = as_it_is v [] h refl
step-Waits v (bytes buf) n h = on_bytes-Waits v buf h
step-Waits v paint_ended n h = cc

any-append : (xs ys : List Output) → any is_paint (xs ++ ys) ≡ (any is_paint xs || any is_paint ys)
any-append [] ys = refl
any-append (x ∷ xs) ys = ground (arith, any-append xs ys)

run-Waits :
    (v : Viewer) (es : List Event)
    → any is_end es ≡ false
    → v.jpeg_busy ≡ true
    → Waits (newest v.jpeg_latest es) (run v es)
unfolding run newest
run-Waits v [] n h = as_it_is v [] h refl
run-Waits v (e ∷ es) n h =
    let now = step-Waits v e (ground (arith, n)) h in
    let rest = run-Waits (step v e).0 es (ground (arith, n)) now.busy in
    record {
      busy = rest.busy;
      latest = rest.latest ∙ ap (λ o. newest o es) now.latest;
      quiet =
          any-append (step v e).1 (run (step v e).0 es).1 ∙ ground (arith, now.quiet, rest.quiet);
    }

end_paints :
    (v : Viewer) (waiting : Option (List ℕ))
    → v.jpeg_latest ≡ waiting
    → (step v paint_ended).1 ≡ painted waiting
unfolding step paint_jpeg paint_latest
end_paints v none h = rw h refl
end_paints v (some jpeg) h = rw h refl

arrives :
    (v : Viewer) (rest : List ℕ)
    → ltb (length rest) 8 ≡ false
    → let arrived = step v (bytes (4 ∷ rest)) in
      let jpeg = drop 8 rest in
      (arrived.1 ≡ (if v.jpeg_busy then [] else paint jpeg ∷ []))
      × (arrived.0.jpeg_busy ≡ true)
      × (arrived.0.jpeg_latest ≡ (if v.jpeg_busy then some jpeg else none))
unfolding step on_bytes on_frame paint_jpeg paint_latest
arrives v rest h = elim (Bool-cases v.jpeg_busy) [
  | inl b ↦ rw (h, b) (refl, refl, refl)
  | inr b ↦ rw (h, b) (refl, refl, refl)
]

-- A JPEG whose message has a whole header is painted when it arrives, unless another is being
-- painted. While one is being painted no other is begun, and when that painting ends, the newest
-- of those that came meanwhile is painted, if any came: the ones before it are dropped.
pub jpeg_painted :
    (v : Viewer) (rest : List ℕ) (es : List Event)
    → ltb (length rest) 8 ≡ false
    → any is_end es ≡ false
    → let arrived = step v (bytes (4 ∷ rest)) in
      let after = run arrived.0 es in
      let jpeg = drop 8 rest in
      (arrived.1 ≡ (if v.jpeg_busy then [] else paint jpeg ∷ []))
      × (any is_paint after.1 ≡ false)
      × ((step after.0 paint_ended).1
          ≡ painted (newest (if v.jpeg_busy then some jpeg else none) es))
jpeg_painted v rest es h n =
    let (out, busy, latest) = arrives v rest h in
    let arrived = (step v (bytes (4 ∷ rest))).0 in
    let after = run-Waits arrived es n busy in
    (
      out,
      after.quiet,
      end_paints (run arrived es).0 (newest arrived.jpeg_latest es) after.latest
          ∙ ap (λ o. painted (newest o es)) latest,
    )
