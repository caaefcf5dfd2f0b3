-- ===== src/Web/Pointer.antt =====
-- apps/rc-web/src/lib/pointer.ts: the moves of the pointer that are sent.
--
-- The times are those of `Date.now()`; a clock that goes back sends nothing until it has caught up. The
-- position (`norm`) is left out.
use ukpc_remote_control.Prelude.{
  ℕ, ◌+◌, ◌-◌, ◌≤◌, Bool, true, false, List, [], ◌∷◌, arith, ltb, if◌then◌else◌, Bool-cases, inl,
  inr,
}

-- `onMove`: the time of the last move sent, and whether this one is
unfoldable pub on_move : ℕ → ℕ → ℕ × Bool
on_move last_move now = if ltb (now - last_move) 30 then (last_move, false) else (now, true)

abbrev onto : Bool → ℕ → List ℕ → List ℕ
onto sent now rest = if sent then now ∷ rest else rest

-- the times of the moves that are sent
unfoldable pub sent_moves : ℕ → List ℕ → List ℕ
unfolding on_move
sent_moves last_move [] = []
sent_moves last_move (now ∷ nows) =
    let rest = sent_moves (on_move last_move now).0 nows in onto (on_move last_move now).1 now rest

-- times that are at least 30 ms apart, the first one from `last`
abbrev pub Apart : ℕ → List ℕ → Type 0
Apart last [] = Unit
Apart last (t ∷ ts) = (last + 30 ≤ t) × Apart t ts

-- Two moves that are sent are at least 30 ms apart, whatever the times of the moves are.
pub sent_moves-Apart : (last : ℕ) (nows : List ℕ) → Apart last (sent_moves last nows)
unfolding sent_moves on_move
sent_moves-Apart last [] = tt
sent_moves-Apart last (now ∷ nows) = elim (Bool-cases (ltb (now - last) 30)) [
  | inl b ↦ rw b (sent_moves-Apart last nows)
  | inr b ↦ rw b (ground (arith, b), sent_moves-Apart now nows)
]
