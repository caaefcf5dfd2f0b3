-- ===== src/Api/Sync/Staleness.antt =====
-- apps/rc-api/src/hmdm/hmdm.sync.ts: which devices are stale after a synchronization.
use mathlib.Core.Path.{subst}
use ukpc_remote_control.Prelude.{
  ℕ, ◌≡◌, refl, sym, ap, String, Bool, true, false, not, ◌||◌, ◌==◌, Option, none, some, List, [],
  ◌∷◌, ◌++◌, arith, eq_iff, any, includes, is_empty, nat_eq, ◌&&◌, ◌∙◌, on_some, Dict, lookup,
  lookup-insert, Bool-cases, inl, inr, if◌then◌else◌,
}
use ukpc_remote_control.Db.{Db, DeviceRow}
use ukpc_remote_control.Api.Sync.{
  MdmDevice, map_group, copied, upsert_device, Copied, write_one, copy_one, copy_all, copied_all,
  mark_stale, sync,
}

-- The row is there and not stale.
abbrev IsFresh : Option DeviceRow → Type 0
IsFresh none = ⊥
IsFresh (some row) = row.stale ≡ false

copied-stale :
    (now group : ℕ) (d : MdmDevice) (o : Option DeviceRow) → (copied now group d o).stale ≡ false
copied-stale now group d none = refl
copied-stale now group d (some row) = refl

upsert_device-IsFresh :
    (now group : ℕ) (d : MdmDevice) (rows : Dict DeviceRow) (j : String)
    → ((d.number == j) ≡ false → IsFresh (lookup j rows))
    → IsFresh (lookup j (upsert_device now group d rows))
unfolding upsert_device
upsert_device-IsFresh now group d rows j h =
    subst IsFresh (sym (lookup-insert d.number j (copied now group d (lookup d.number rows)) rows))
      (elim (Bool-cases (d.number == j)) [
        | inl b ↦ rw b (copied-stale now group d (lookup d.number rows))
        | inr b ↦ rw b (h b)
      ])

includes-append :
    (xs : List String) (x j : String) → includes (xs ++ x ∷ []) j ≡ (includes xs j || x == j)
includes-append [] x j = ground arith
includes-append (y ∷ ys) x j = ground (arith, includes-append ys x j)

-- While the loop runs, the devices that it has come to are fresh.
abbrev Written : Copied → Type 0
Written c =
    (j : String) → c.running ≡ true → includes c.numbers j ≡ true → IsFresh (lookup j c.rows)

write_one-Written :
    (now : ℕ) (c : Copied) (d : MdmDevice) (group : Option ℕ)
    → Written c
    → Written (write_one now (record c { numbers = c.numbers ++ d.number ∷ [] }) d group)
unfolding write_one
write_one-Written now c d none w j on has = ground (arith, on)
write_one-Written now c d (some g) w j on has =
    upsert_device-IsFresh now g d c.rows j
      (λ other. w j on (ground (arith, has, includes-append c.numbers d.number j, other)))

Written-if : (b : Bool) (x y : Copied) → Written x → Written y → Written (if b then x else y)
Written-if true x y h k = h
Written-if false x y h k = k

copy_one-Written :
    (group_of : ℕ → ℕ) (db : Db) (now : ℕ) (c : Copied) (d : MdmDevice)
    → Written c
    → Written (copy_one group_of db now c d)
unfolding copy_one
copy_one-Written group_of db now c d w =
    let group = map_group group_of db d.group_id in
    Written-if (not c.running || d.number == "") c
      (write_one now (record c { numbers = c.numbers ++ d.number ∷ [] }) d group) w
      (write_one-Written now c d group w)

copy_all-Written :
    (group_of : ℕ → ℕ) (db : Db) (now : ℕ) (c : Copied) (ds : List MdmDevice)
    → Written c
    → Written (copy_all group_of db now c ds)
unfolding copy_all
copy_all-Written group_of db now c [] w = w
copy_all-Written group_of db now c (d ∷ ds) w =
    copy_all-Written group_of db now (copy_one group_of db now c d) ds
      (copy_one-Written group_of db now c d w)

lookup-mark_stale :
    (numbers : List String) (rows : Dict DeviceRow) (j : String)
    → lookup j (mark_stale numbers rows) ≡ (
        if includes numbers j
        then lookup j rows
        else on_some (λ row. record row { stale = true }) (lookup j rows))
unfolding mark_stale lookup
lookup-mark_stale numbers [] j = ground arith
lookup-mark_stale numbers ((d, row) ∷ rows) j =
    let ih = lookup-mark_stale numbers rows j in
    elim (Bool-cases (d == j)) [
      | inl b ↦ let same = ap (includes numbers) ((eq_iff d j).0 b) in ground (arith, ih, b, same)
      | inr b ↦ ground (arith, ih, b)
    ]

-- whether the MDM lists the device: a device without a number is passed over
abbrev pub listed : List MdmDevice → String → Bool
listed ds j = any (λ d. d.number == j && not (d.number == "")) ds

-- A row that is listed is there and not stale, and any other stays and is marked.
abbrev pub Marked : Bool → Option DeviceRow → Option DeviceRow → Type 0
Marked true before after = IsFresh after
Marked false before after = after ≡ on_some (λ row. record row { stale = true }) before

-- what the rest of the loop adds to what is written so far
record Goes (c v : Copied) (ds : List MdmDevice) (j : String) : Type 0 where
  runs : v.running ≡ true
  lists : includes v.numbers j ≡ (includes c.numbers j || listed ds j)
  keeps : listed ds j ≡ false → lookup j v.rows ≡ lookup j c.rows

write_one-Goes :
    (now : ℕ) (c : Copied) (d : MdmDevice) (group : ℕ) (j : String)
    → c.running ≡ true
    → (d.number == "") ≡ false
    → Goes c
        (write_one now (record c { numbers = c.numbers ++ d.number ∷ [] }) d (some group))
        (d ∷ [])
        j
unfolding write_one upsert_device
write_one-Goes now c d group j on named = record {
  runs = on;
  lists = ground (arith, includes-append c.numbers d.number j, named);
  keeps = λ other.
      lookup-insert d.number j (copied now group d (lookup d.number c.rows)) c.rows
      ∙ ground (arith, other, named);
}

some_group :
    (group_of : ℕ → ℕ) (db : Db) (g : ℕ) (o : Option ℕ)
    → db.default_group ≡ some g
    → (x : ℕ) × (map_group group_of db o ≡ some x)
unfolding map_group
some_group group_of db g none h = (g, h)
some_group group_of db g (some x) h = elim (Bool-cases (nat_eq x 0)) [
  | inl b ↦ rw b (g, h)
  | inr b ↦ rw b (group_of x, refl)
]

copy_one-Goes :
    (group_of : ℕ → ℕ) (db : Db) (g now : ℕ) (c : Copied) (d : MdmDevice) (j : String)
    → db.default_group ≡ some g
    → c.running ≡ true
    → Goes c (copy_one group_of db now c d) (d ∷ []) j
unfolding copy_one
copy_one-Goes group_of db g now c d j h on = elim (Bool-cases (d.number == "")) [
  | inl b ↦ rw (on, b) (record { runs = refl; lists = ground (arith, b); keeps = λ other. refl })
  | inr b ↦
      let (x, e) = some_group group_of db g d.group_id h in
      rw (on, b, e) (write_one-Goes now (record c { running = true }) d x j refl b)
]

copy_all-Goes :
    (group_of : ℕ → ℕ) (db : Db) (g now : ℕ) (c : Copied) (ds : List MdmDevice) (j : String)
    → db.default_group ≡ some g
    → c.running ≡ true
    → Goes c (copy_all group_of db now c ds) ds j
unfolding copy_all
copy_all-Goes group_of db g now c [] j h on = record {
  runs = on;
  lists = ground arith;
  keeps = λ other. refl;
}
copy_all-Goes group_of db g now c (d ∷ ds) j h on =
    let one = copy_one-Goes group_of db g now c d j h on in
    let rest = copy_all-Goes group_of db g now (copy_one group_of db now c d) ds j h one.runs in
    record {
      runs = rest.runs;
      lists = ground (arith, rest.lists, one.lists);
      keeps = λ other. rest.keeps (ground (arith, other)) ∙ one.keeps (ground (arith, other));
    }

includes-some : (xs : List String) (j : String) → includes xs j ≡ true → is_empty xs ≡ false
includes-some [] j h = ground arith
includes-some (x ∷ xs) j h = refl

-- Where there is a default group and the MDM lists at least one device by a number, a synchronization leaves every
-- listed device in the table, not stale, and every other row as it was, but stale.
pub sync-Marked :
    (group_of : ℕ → ℕ) (db : Db) (g now : ℕ) (ds : List MdmDevice) (some_device j : String)
    → db.default_group ≡ some g
    → listed ds some_device ≡ true
    → Marked (listed ds j) (lookup j db.devices) (lookup j (sync group_of db now (some ds)))
unfolding sync
sync-Marked group_of db g now ds some_device j h one =
    let begun : Copied = record { rows = db.devices; numbers = []; running = true } in
    let c = copied_all group_of db now ds in
    let at_j = copy_all-Goes group_of db g now begun ds j h refl in
    let at_one = copy_all-Goes group_of db g now begun ds some_device h refl in
    let has = includes-some c.numbers some_device (at_one.lists ∙ one) in
    rw (at_j.runs, has)
      (subst (Marked (listed ds j) (lookup j db.devices))
        (sym (lookup-mark_stale c.numbers c.rows j))
        (elim (Bool-cases (listed ds j)) [
          | inl b ↦
              let inc : includes c.numbers j ≡ true = at_j.lists ∙ b in
              rw (b, inc)
                (copy_all-Written group_of db now begun ds (λ k run has. ground (arith, has)) j
                  at_j.runs inc)
          | inr b ↦
              let inc : includes c.numbers j ≡ false = at_j.lists ∙ b in
              rw (b, inc) (ap (on_some (λ row. record row { stale = true })) (at_j.keeps b))
        ]))
