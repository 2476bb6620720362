-- ===== src/Translator/Session/Cache.antt =====
-- The cache of tests/Main.cpp.
use dbtranslator.Base.{Text, ℕ, ◌≡◌, ◌≢◌, none, some, [], ◌∷◌, ◌==◌, if◌then◌else◌, arith}
use dbtranslator.Translator.Session.{BlockCache, find, insert}

-- After an insertion, a lookup of the key gives the entry that was there, or else the new one; a
-- lookup of any other key gives what it gave before.
pub find-insert :
    (pc k : ℕ) (name : Text) (cache : BlockCache)
    → find k (insert pc name cache) ≡ (
        if pc == k
        then elim (find k cache) [ some old ↦ some old | none ↦ some name ]
        else find k cache)
unfolding find insert
find-insert pc k name [] = ground arith
find-insert pc k name ((j, old) ∷ cache) = ground (arith, find-insert pc k name cache)

pub find-insert_self :
    (pc k : ℕ) (name : Text) (cache : BlockCache)
    → pc ≡ k
    → find pc cache ≡ none
    → find k (insert pc name cache) ≡ some name
find-insert_self pc k name cache same h = rw (← same) (ground (arith, find-insert pc pc name cache))

pub find-insert_again :
    (pc k : ℕ) (name old : Text) (cache : BlockCache)
    → find pc cache ≡ some old
    → find k (insert pc name cache) ≡ find k cache
find-insert_again pc k name old cache h = ground (arith, find-insert pc k name cache)

pub find-insert_ne :
    (pc k : ℕ) (name : Text) (cache : BlockCache)
    → pc ≢ k
    → find k (insert pc name cache) ≡ find k cache
find-insert_ne pc k name cache h = ground (arith, find-insert pc k name cache)
