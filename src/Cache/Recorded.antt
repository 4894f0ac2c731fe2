-- ===== src/Cache/Recorded.antt =====
-- internal/aws/state/state.go: Get behind Set.
use awsbnkctl.Base.{◌≡◌, arith, eq_iff, lookup-insert, String}
use awsbnkctl.Cache.{State, get, set}

pub get-set : (id key : String) (s : State) → get (set key id s) key ≡ id
unfolding get set
get-set id key s = ground (arith, lookup-insert key key id s.entries, eq_iff key key)
