-- ===== src/Web/Decode/Frames.antt =====
-- apps/rc-web/src/lib/decode.ts: what the decoder and the canvas are given.
use ukpc_remote_control.Prelude.{
  ℕ, suc, ◌≡◌, refl, Bool, true, false, ◌||◌, Option, none, some, List, [], ◌∷◌, ◌++◌, length, drop,
  ltb, nat_eq, Bool-cases, inl, inr, if◌then◌else◌,
}
use ukpc_remote_control.Web.Decode.{
  key, delta, Event, text_message, bytes, paint_ended, Output, decode, paint, Viewer, opened,
  paint_latest, paint_jpeg, decode_if, on_chunk, on_video, on_frame, on_bytes, step, run,
}

-- Chunks that the decoder can take, `had` telling whether it had a key frame: no delta before one.
abbrev pub Decodable : Bool → List Output → Type 0
Decodable had [] = Unit
Decodable had (paint jpeg ∷ rest) = Decodable had rest
Decodable had (decode key body ∷ rest) = Decodable true rest
Decodable had (decode delta body ∷ rest) = (had ≡ true) × Decodable had rest

abbrev had_after : Bool → List Output → Bool
had_after had [] = had
had_after had (paint jpeg ∷ rest) = had_after had rest
had_after had (decode key body ∷ rest) = had_after true rest
had_after had (decode delta body ∷ rest) = had_after had rest

Decodable-append :
    (had : Bool) (xs ys : List Output)
    → Decodable had xs
    → Decodable (had_after had xs) ys
    → Decodable had (xs ++ ys)
Decodable-append had [] ys h k = k
Decodable-append had (paint jpeg ∷ xs) ys h k = Decodable-append had xs ys h k
Decodable-append had (decode key body ∷ xs) ys h k = Decodable-append true xs ys h k
Decodable-append had (decode delta body ∷ xs) ys (a, h) k = (a, Decodable-append had xs ys h k)

-- The outputs can be decoded, and the state remembers the key frame.
Sound : Bool → Viewer × List Output → Type 0
Sound had (v, out) = Decodable had out × (v.got_key ≡ had_after had out)

Sound-if :
    (had b : Bool) (x y : Viewer × List Output)
    → Sound had x
    → Sound had y
    → Sound had (if b then x else y)
Sound-if had true x y h k = h
Sound-if had false x y h k = k

paint_latest-Sound :
    (v : Viewer) (busy : Bool) (latest : Option (List ℕ))
    → Sound v.got_key (paint_latest v busy latest)
unfolding paint_latest Sound
paint_latest-Sound v true latest = (tt, refl)
paint_latest-Sound v false none = (tt, refl)
paint_latest-Sound v false (some jpeg) = (tt, refl)

paint_jpeg-Sound : (v : Viewer) → Sound v.got_key (paint_jpeg v)
unfolding paint_jpeg
paint_jpeg-Sound v = paint_latest-Sound v v.jpeg_busy v.jpeg_latest

delta-Sound : (v : Viewer) (body : List ℕ) → Sound v.got_key (decode_if v delta body)
unfolding Sound
delta-Sound v body = elim (Bool-cases v.got_key) [
  | inl b ↦ rw b ((refl, tt), refl)
  | inr b ↦ rw b (tt, refl)
]

on_chunk-Sound : (v : Viewer) (type : ℕ) (body : List ℕ) → Sound v.got_key (on_chunk v type body)
unfolding on_chunk Sound
on_chunk-Sound v type body = elim (Bool-cases (nat_eq type 2)) [
  | inl c ↦ rw c (tt, refl)
  | inr c ↦ rw c (elim (Bool-cases (nat_eq type 3)) [
    | inl d ↦ rw d (delta-Sound (record v { n3 = suc v.n3 }) body)
    | inr d ↦ rw d (delta-Sound v body)
  ])
]

on_video-Sound : (v : Viewer) (type : ℕ) (body : List ℕ) → Sound v.got_key (on_video v type body)
unfolding on_video Sound
on_video-Sound v type body =
    Sound-if v.got_key v.jpeg_mode (v, []) (on_chunk v type body) (tt, refl)
      (on_chunk-Sound v type body)

on_frame-Sound : (v : Viewer) (type : ℕ) (body : List ℕ) → Sound v.got_key (on_frame v type body)
unfolding on_frame Sound
on_frame-Sound v type body = elim (Bool-cases (nat_eq type 4)) [
  | inl b ↦
      rw b
        (paint_jpeg-Sound (record v { n4 = suc v.n4; jpeg_mode = true; jpeg_latest = some body }))
  | inr b ↦ rw b (elim (Bool-cases (nat_eq type 1)) [
    | inl c ↦ rw c (tt, refl)
    | inr c ↦ rw c (on_video-Sound v type body)
  ])
]

on_bytes-Sound : (v : Viewer) (buf : List ℕ) → Sound v.got_key (on_bytes v buf)
unfolding on_bytes Sound
on_bytes-Sound v [] = (tt, refl)
on_bytes-Sound v (type ∷ rest) = elim (Bool-cases (nat_eq type 123 || ltb (length rest) 8)) [
  | inl b ↦ rw b (tt, refl)
  | inr b ↦ rw b (on_frame-Sound v type (drop 8 rest))
]

step-Sound : (v : Viewer) (e : Event) → Sound v.got_key (step v e)
unfolding step Sound
step-Sound v text_message = (tt, refl)
step-Sound v (bytes buf) = on_bytes-Sound v buf
step-Sound v paint_ended = paint_jpeg-Sound (record v { jpeg_busy = false })

run_from : (v : Viewer) (es : List Event) → Decodable v.got_key (run v es).1
unfolding run Sound
run_from v [] = tt
run_from v (e ∷ es) =
    let (out, kept) = step-Sound v e in
    Decodable-append v.got_key (step v e).1 (run (step v e).0 es).1 out
      (rw⁻¹ kept (run_from (step v e).0 es))

-- Whatever the agent sends, the decoder gets no delta chunk before a key frame.
pub run-Decodable : (es : List Event) → Decodable false (run opened es).1
run-Decodable es = run_from opened es
