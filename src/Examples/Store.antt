-- ===== src/Examples/Store.antt =====
-- A Redis for the tests: texts, hashes, counters and lists in four dictionaries, without expiry.
use ukpc_remote_control.Prelude.{
  ℕ, suc, String, Bool, true, false, ◌≡◌, ◌≢◌, refl, ap, ◌∙◌, ◌||◌, ◌&&◌, Option, none, some, List,
  [], ◌∷◌, Dict, arith, eq_iff, eq_refl, ◌==◌, includes, lookup, insert, remove, lookup-insert,
  lookup-remove, or_else, is_some, get_or, if◌then◌else◌, Bool-cases, inl, inr,
}
use ukpc_remote_control.Api.Redis.{Redis}

pub record Data : Type 0 where
  pub texts : Dict String
  pub hashes : Dict (Dict String)
  pub counts : Dict ℕ
  pub lists : Dict (List String)

set_at : Data → String → String → Option String → Data × Bool
set_at s k v none = (record s { texts = insert k v s.texts }, true)
set_at s k v (some w) = (s, false)

unfoldable pub set_once : Data → String → String → Data × Bool
unfolding set_at
set_once s k v = set_at s k v (lookup k s.texts)

abbrev pub hash_at : Data → String → Dict String
hash_at s k = get_or (lookup k s.hashes) []

abbrev pub count_at : Data → String → ℕ
count_at s k = get_or (lookup k s.counts) 0

abbrev pub list_at : Data → String → List String
list_at s k = get_or (lookup k s.lists) []

unfoldable pub set_fields : Dict String → Dict String → Dict String
set_fields [] hash = hash
set_fields ((f, v) ∷ rest) hash = insert f v (set_fields rest hash)

unfoldable pub drop_fields : List String → Dict String → Dict String
drop_fields [] hash = hash
drop_fields (f ∷ fs) hash = remove f (drop_fields fs hash)

pub set_once-free :
    (s : Data) (k v : String)
    → lookup k s.texts ≡ none
    → ((set_once s k v).1 ≡ true) × (lookup k (set_once s k v).0.texts ≡ some v)
unfolding set_once set_at
set_once-free s k v h =
    let same : (k == k) ≡ true = ground (arith, eq_refl k) in
    rw h (refl, lookup-insert k k v s.texts ∙ ground arith)

pub set_once-taken :
    (s : Data) (k v w : String) → lookup k s.texts ≡ some w → set_once s k v ≡ (s, false)
unfolding set_once set_at
set_once-taken s k v w h = rw h

-- A command on texts leaves the other kinds alone.
set_at-others :
    (s : Data) (k v : String) (o : Option String)
    → ((set_at s k v o).0.hashes ≡ s.hashes) × ((set_at s k v o).0.lists ≡ s.lists)
unfolding set_at
set_at-others s k v none = (refl, refl)
set_at-others s k v (some w) = (refl, refl)

pub set_once-others :
    (s : Data) (k v : String)
    → ((set_once s k v).0.hashes ≡ s.hashes) × ((set_once s k v).0.lists ≡ s.lists)
unfolding set_once
set_once-others s k v = set_at-others s k v (lookup k s.texts)

pub lookup_same-remove : {V : Type 0} (k : String) (d : Dict V) → lookup k (remove k d) ≡ none
lookup_same-remove k d =
    let same : (k == k) ≡ true = ground (arith, eq_refl k) in lookup-remove k k d ∙ ground arith

pub lookup_other-remove :
    {V : Type 0} (k j : String) (d : Dict V) → k ≢ j → lookup j (remove k d) ≡ lookup j d
lookup_other-remove k j d ne = lookup-remove k j d ∙ ground (arith, eq_iff k j)

pub lookup-set_fields :
    (f : String) (d hash : Dict String)
    → lookup f (set_fields d hash) ≡ or_else (lookup f d) (lookup f hash)
unfolding set_fields lookup
lookup-set_fields f [] hash = refl
lookup-set_fields f ((g, v) ∷ rest) hash =
    lookup-insert g f v (set_fields rest hash) ∙ ground (arith, lookup-set_fields f rest hash)

pub lookup-drop_fields :
    (f : String) (fs : List String) (hash : Dict String)
    → lookup f (drop_fields fs hash) ≡ (if includes fs f then none else lookup f hash)
unfolding drop_fields
lookup-drop_fields f [] hash = refl
lookup-drop_fields f (g ∷ gs) hash =
    lookup-remove g f (drop_fields gs hash) ∙ ground (arith, lookup-drop_fields f gs hash)

-- a dictionary of values with a default, after a write and after a removal
pub get_or-insert :
    {V : Type 0} (k j : String) (v z : V) (d : Dict V)
    → get_or (lookup j (insert k v d)) z ≡ (if k == j then v else get_or (lookup j d) z)
get_or-insert k j v z d = ground (arith, lookup-insert k j v d)

pub get_or-remove :
    {V : Type 0} (k j : String) (z : V) (d : Dict V)
    → get_or (lookup j (remove k d)) z ≡ (if k == j then z else get_or (lookup j d) z)
get_or-remove k j z d = ground (arith, lookup-remove k j d)

pub field-insert :
    (s : Data) (k j f : String) (d : Dict String)
    → lookup f (get_or (lookup j (insert k (set_fields d (hash_at s k)) s.hashes)) [])
      ≡ (if k == j then or_else (lookup f d) (lookup f (hash_at s j)) else lookup f (hash_at s j))
field-insert s k j f d = elim (Bool-cases (k == j)) [
  | inl e ↦
      let same : k ≡ j = ground (arith, eq_iff k j) in
      rw e (
        ap (lookup f) (get_or-insert k j (set_fields d (hash_at s k)) [] s.hashes ∙ rw e)
        ∙ lookup-set_fields f d (hash_at s k)
        ∙ ap (λ x. or_else (lookup f d) (lookup f (hash_at s x))) same)
  | inr e ↦ rw e (ap (lookup f) (get_or-insert k j (set_fields d (hash_at s k)) [] s.hashes ∙ rw e))
]

pub field-drop :
    (s : Data) (k j f : String) (fs : List String)
    → lookup f (get_or (lookup j (insert k (drop_fields fs (hash_at s k)) s.hashes)) [])
      ≡ (if k == j && includes fs f then none else lookup f (hash_at s j))
field-drop s k j f fs = elim (Bool-cases (k == j)) [
  | inl e ↦
      let same : k ≡ j = ground (arith, eq_iff k j) in
      rw e (
        ap (lookup f) (get_or-insert k j (drop_fields fs (hash_at s k)) [] s.hashes ∙ rw e)
        ∙ lookup-drop_fields f fs (hash_at s k)
        ∙ ap (λ x. if includes fs f then none else lookup f (hash_at s x)) same)
  | inr e ↦
      rw e (ap (lookup f) (get_or-insert k j (drop_fields fs (hash_at s k)) [] s.hashes ∙ rw e))
]

pub count-insert :
    (k j : String) (d : Dict ℕ)
    → get_or (lookup j (insert k (suc (get_or (lookup k d) 0)) d)) 0
      ≡ (if k == j then suc (get_or (lookup j d) 0) else get_or (lookup j d) 0)
count-insert k j d =
    get_or-insert k j (suc (get_or (lookup k d) 0)) 0 d ∙ ground (arith, eq_iff k j)

pub list-insert :
    (k j v : String) (d : Dict (List String))
    → get_or (lookup j (insert k (v ∷ get_or (lookup k d) []) d)) []
      ≡ (if k == j then v ∷ get_or (lookup j d) [] else get_or (lookup j d) [])
list-insert k j v d =
    get_or-insert k j (v ∷ get_or (lookup k d) []) [] d ∙ ground (arith, eq_iff k j)

pub exists_set :
    (s : Data) (k v : String)
    → (is_some (lookup k (insert k v s.texts))
        || is_some (lookup k (remove k s.hashes))
        || is_some (lookup k (remove k s.counts))
        || is_some (lookup k (remove k s.lists)))
      ≡ true
exists_set s k v = ground (arith, lookup-insert k k v s.texts, eq_refl k)

pub exists_del :
    (s : Data) (k j : String)
    → (is_some (lookup j (remove k s.texts))
        || is_some (lookup j (remove k s.hashes))
        || is_some (lookup j (remove k s.counts))
        || is_some (lookup j (remove k s.lists)))
      ≡ (if k == j
          then false
          else is_some (lookup j s.texts)
            || is_some (lookup j s.hashes)
            || is_some (lookup j s.counts)
            || is_some (lookup j s.lists))
exists_del s k j = ground (
  arith,
  lookup-remove k j s.texts,
  lookup-remove k j s.hashes,
  lookup-remove k j s.counts,
  lookup-remove k j s.lists,
)

-- a write to one dictionary makes its key be there
some_inserted :
    {V : Type 0} (k j : String) (v : V) (d : Dict V)
    → is_some (lookup j (insert k v d)) ≡ (k == j || is_some (lookup j d))
some_inserted k j v d = ground (arith, lookup-insert k j v d)

pub exists_counted :
    (s : Data) (k j : String) (n : ℕ)
    → (is_some (lookup j s.texts)
        || is_some (lookup j s.hashes)
        || is_some (lookup j (insert k n s.counts))
        || is_some (lookup j s.lists))
      ≡ (k == j
          || (is_some (lookup j s.texts)
              || is_some (lookup j s.hashes)
              || is_some (lookup j s.counts)
              || is_some (lookup j s.lists)))
exists_counted s k j n = ground (arith, some_inserted k j n s.counts)

pub exists_pushed :
    (s : Data) (k j : String) (xs : List String)
    → (is_some (lookup j s.texts)
        || is_some (lookup j s.hashes)
        || is_some (lookup j s.counts)
        || is_some (lookup j (insert k xs s.lists)))
      ≡ (k == j
          || (is_some (lookup j s.texts)
              || is_some (lookup j s.hashes)
              || is_some (lookup j s.counts)
              || is_some (lookup j s.lists)))
exists_pushed s k j xs = ground (arith, some_inserted k j xs s.lists)

abbrev pub store : Redis
store = record {
  Store = Data;
  get = λ s k. lookup k s.texts;
  hgetall = hash_at;
  count = count_at;
  items = list_at;
  exists = λ s k.
      is_some (lookup k s.texts)
      || is_some (lookup k s.hashes)
      || is_some (lookup k s.counts)
      || is_some (lookup k s.lists);
  set_nx = λ s k v n. set_once s k v;
  set = λ s k v n. record {
    texts = insert k v s.texts;
    hashes = remove k s.hashes;
    counts = remove k s.counts;
    lists = remove k s.lists;
  };
  hset = λ s k d. record s { hashes = insert k (set_fields d (hash_at s k)) s.hashes };
  hdel = λ s k fs. record s { hashes = insert k (drop_fields fs (hash_at s k)) s.hashes };
  incr = λ s k. (record s { counts = insert k (suc (count_at s k)) s.counts }, suc (count_at s k));
  lpush = λ s k v. record s { lists = insert k (v ∷ list_at s k) s.lists };
  expire = λ s k n. s;
  del = λ s k. record {
    texts = remove k s.texts;
    hashes = remove k s.hashes;
    counts = remove k s.counts;
    lists = remove k s.lists;
  };
  set_nx_free = λ s k v n h. set_once-free s k v h;
  set_nx_taken = λ s k v w n h. set_once-taken s k v w h;
  get-hset = λ s k j d ne. refl;
  get-expire = λ s k j n. refl;
  get-incr = λ s k j. refl;
  get-del = λ s k. lookup_same-remove k s.texts;
  get-del_ne = λ s k j ne. lookup_other-remove k j s.texts ne;
  field-hset = field-insert;
  field-hdel = field-drop;
  hgetall-del = λ s k j. get_or-remove k j [] s.hashes;
  hgetall-set = λ s k j v n. get_or-remove k j [] s.hashes;
  hgetall-set_nx = λ s k j v n. ap (λ d. get_or (lookup j d) []) (set_once-others s k v).0;
  hgetall-expire = λ s k j n. refl;
  hgetall-incr = λ s k j. refl;
  hgetall-lpush = λ s k j v. refl;
  incr_lem = λ s k. refl;
  count-incr = λ s k j. count-insert k j s.counts;
  count-expire = λ s k j n. refl;
  items-lpush = λ s k j v. list-insert k j v s.lists;
  items-expire = λ s k j n. refl;
  items-incr = λ s k j. refl;
  items-del = λ s k j. get_or-remove k j [] s.lists;
  items-set = λ s k j v n. get_or-remove k j [] s.lists;
  items-set_nx = λ s k j v n. ap (λ d. get_or (lookup j d) []) (set_once-others s k v).1;
  exists-del = exists_del;
  exists-incr = λ s k j. exists_counted s k j (suc (count_at s k));
  exists-lpush = λ s k j v. exists_pushed s k j (v ∷ list_at s k);
  exists-expire = λ s k j n. refl;
  exists-set = λ s k v n. exists_set s k v;
}
