-- ===== src/Api/Redis.antt =====
-- What the API and the ingest rely on of Redis: the commands that they send, and the documented
-- behaviour of these commands. A key holds a text, a hash, a counter or a list. A command for another
-- kind of value fails and changes nothing; `SET` and `DEL` drop what the key held. Time passes only
-- between handlers.
use ukpc_remote_control.Prelude.{
  ℕ, suc, String, Bool, true, false, ◌≡◌, ◌≢◌, ◌&&◌, ◌||◌, ◌==◌, Option, none, some, List, [], ◌∷◌,
  Dict, includes, lookup, or_else, if◌then◌else◌,
}

pub record Redis : Type 1 where
  pub Store : Type 0
  pub get : Store → String → Option String
  pub hgetall : Store → String → Dict String
  pub count : Store → String → ℕ  -- a counter, 0 where there is none
  pub items : Store → String → List String  -- a list, the last pushed first
  pub exists : Store → String → Bool
  pub set_nx : Store → String → String → ℕ → Store × Bool  -- SET key value EX seconds NX
  pub set : Store → String → String → ℕ → Store  -- SET key value EX seconds
  pub hset : Store → String → Dict String → Store
  pub hdel : Store → String → List String → Store
  pub incr : Store → String → Store × ℕ
  pub lpush : Store → String → String → Store
  pub expire : Store → String → ℕ → Store
  pub del : Store → String → Store
  pub set_nx_free :
      (s : Store) (k v : String) (n : ℕ)
      → get s k ≡ none
      → ((set_nx s k v n).1 ≡ true) × (get (set_nx s k v n).0 k ≡ some v)
  pub set_nx_taken :
      (s : Store) (k v w : String) (n : ℕ) → get s k ≡ some w → set_nx s k v n ≡ (s, false)
  pub get-hset : (s : Store) (k j : String) (d : Dict String) → k ≢ j → get (hset s k d) j ≡ get s j
  pub get-expire : (s : Store) (k j : String) (n : ℕ) → get (expire s k n) j ≡ get s j
  pub get-incr : (s : Store) (k j : String) → get (incr s k).0 j ≡ get s j
  pub get-del : (s : Store) (k : String) → get (del s k) k ≡ none
  pub get-del_ne : (s : Store) (k j : String) → k ≢ j → get (del s k) j ≡ get s j
  -- hashes, field by field
  pub field-hset :
      (s : Store) (k j f : String) (d : Dict String)
      → lookup f (hgetall (hset s k d) j)
        ≡ (if k == j then or_else (lookup f d) (lookup f (hgetall s j)) else lookup f (hgetall s j))
  pub field-hdel :
      (s : Store) (k j f : String) (fs : List String)
      → lookup f (hgetall (hdel s k fs) j)
        ≡ (if k == j && includes fs f then none else lookup f (hgetall s j))
  pub hgetall-del :
      (s : Store) (k j : String) → hgetall (del s k) j ≡ (if k == j then [] else hgetall s j)
  pub hgetall-set :
      (s : Store) (k j v : String) (n : ℕ)
      → hgetall (set s k v n) j ≡ (if k == j then [] else hgetall s j)
  pub hgetall-set_nx :
      (s : Store) (k j v : String) (n : ℕ) → hgetall (set_nx s k v n).0 j ≡ hgetall s j
  pub hgetall-expire : (s : Store) (k j : String) (n : ℕ) → hgetall (expire s k n) j ≡ hgetall s j
  pub hgetall-incr : (s : Store) (k j : String) → hgetall (incr s k).0 j ≡ hgetall s j
  pub hgetall-lpush : (s : Store) (k j v : String) → hgetall (lpush s k v) j ≡ hgetall s j
  -- counters
  pub incr_lem : (s : Store) (k : String) → (incr s k).1 ≡ suc (count s k)
  pub count-incr :
      (s : Store) (k j : String)
      → count (incr s k).0 j ≡ (if k == j then suc (count s j) else count s j)
  pub count-expire : (s : Store) (k j : String) (n : ℕ) → count (expire s k n) j ≡ count s j
  -- lists
  pub items-lpush :
      (s : Store) (k j v : String)
      → items (lpush s k v) j ≡ (if k == j then v ∷ items s j else items s j)
  pub items-expire : (s : Store) (k j : String) (n : ℕ) → items (expire s k n) j ≡ items s j
  pub items-incr : (s : Store) (k j : String) → items (incr s k).0 j ≡ items s j
  pub items-del :
      (s : Store) (k j : String) → items (del s k) j ≡ (if k == j then [] else items s j)
  pub items-set :
      (s : Store) (k j v : String) (n : ℕ)
      → items (set s k v n) j ≡ (if k == j then [] else items s j)
  pub items-set_nx : (s : Store) (k j v : String) (n : ℕ) → items (set_nx s k v n).0 j ≡ items s j
  -- whether there is a key, of whatever kind
  pub exists-del :
      (s : Store) (k j : String) → exists (del s k) j ≡ (if k == j then false else exists s j)
  pub exists-incr : (s : Store) (k j : String) → exists (incr s k).0 j ≡ (k == j || exists s j)
  pub exists-lpush : (s : Store) (k j v : String) → exists (lpush s k v) j ≡ (k == j || exists s j)
  pub exists-expire : (s : Store) (k j : String) (n : ℕ) → exists (expire s k n) j ≡ exists s j
  pub exists-set : (s : Store) (k v : String) (n : ℕ) → exists (set s k v n) k ≡ true
