-- ===== src/Web/Decode.antt =====
-- apps/rc-web/src/lib/decode.ts: the frames of the stream (`connectStream`).
--
-- `step` is one call of `onmessage` or the end of a painting; what it hands on (a chunk for the decoder, a
-- JPEG to be painted) is its output. The log, its timer and the counting of frames per second are left out.
pub mod Frames
pub mod Painting
use ukpc_remote_control.Prelude.{
  ℕ, suc, ◌+◌, Bool, true, false, not, ◌&&◌, ◌||◌, Option, none, some, List, [], ◌∷◌, ◌++◌, length,
  drop, ltb, nat_eq, if◌then◌else◌,
}

pub data ChunkKind : Type 0 where
  key delta : ChunkKind

pub data Event : Type 0 where
  text_message : Event
  bytes : List ℕ → Event
  paint_ended : Event  -- `finally`

pub data Output : Type 0 where
  decode : ChunkKind → List ℕ → Output
  paint : List ℕ → Output

pub record Viewer : Type 0 where
  pub got_key : Bool
  pub jpeg_mode : Bool
  pub jpeg_busy : Bool
  pub jpeg_latest : Option (List ℕ)
  pub n1 : ℕ
  pub n2 : ℕ
  pub n3 : ℕ
  pub n4 : ℕ

abbrev pub opened : Viewer
opened = record {
  got_key = false;
  jpeg_mode = false;
  jpeg_busy = false;
  jpeg_latest = none;
  n1 = 0;
  n2 = 0;
  n3 = 0;
  n4 = 0;
}

unfoldable pub paint_latest : Viewer → Bool → Option (List ℕ) → Viewer × List Output
paint_latest v true latest = (v, [])
paint_latest v false none = (v, [])
paint_latest v false (some jpeg) =
    (record v { jpeg_latest = none; jpeg_busy = true }, paint jpeg ∷ [])

unfoldable pub paint_jpeg : Viewer → Viewer × List Output
unfolding paint_latest
paint_jpeg v = paint_latest v v.jpeg_busy v.jpeg_latest

-- a chunk for the decoder, once there was a key frame
abbrev pub decode_if : Viewer → ChunkKind → List ℕ → Viewer × List Output
decode_if v kind data' = if v.got_key then (v, decode kind data' ∷ []) else (v, [])

-- the branches after those of JPEG and the configuration
unfoldable pub on_chunk : Viewer → ℕ → List ℕ → Viewer × List Output
on_chunk v type body =
    if nat_eq type 2
    then decode_if (record v { n2 = suc v.n2; jpeg_mode = false; got_key = true }) key body
    else if nat_eq type 3
    then decode_if (record v { n3 = suc v.n3 }) delta body
    else decode_if v delta body

unfoldable pub on_video : Viewer → ℕ → List ℕ → Viewer × List Output
unfolding on_chunk
on_video v type body = if v.jpeg_mode then (v, []) else on_chunk v type body

unfoldable pub on_frame : Viewer → ℕ → List ℕ → Viewer × List Output
unfolding on_video paint_jpeg
on_frame v type body =
    if nat_eq type 4
    then paint_jpeg (record v { n4 = suc v.n4; jpeg_mode = true; jpeg_latest = some body })
    else if nat_eq type 1
    then (record v { n1 = suc v.n1; jpeg_mode = false }, [])
    else on_video v type body

-- `getUint8(0)` and `getBigUint64(1)` throw on a buffer that is too short
unfoldable pub on_bytes : Viewer → List ℕ → Viewer × List Output
unfolding on_frame
on_bytes v [] = (v, [])
on_bytes v (type ∷ rest) =
    if nat_eq type 123 || ltb (length rest) 8 then (v, []) else on_frame v type (drop 8 rest)

unfoldable pub step : Viewer → Event → Viewer × List Output
unfolding on_bytes
step v text_message = (v, [])
step v (bytes buf) = on_bytes v buf
step v paint_ended = paint_jpeg (record v { jpeg_busy = false })

unfoldable pub run : Viewer → List Event → Viewer × List Output
run v [] = (v, [])
run v (e ∷ es) = let (v1, out) = step v e in let (v2, more) = run v1 es in (v2, out ++ more)
