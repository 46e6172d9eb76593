-- ===== src/Examples/Keys.antt =====
-- The clustering key of a prompt with each kind of placeholder.
use aegis_go.Prelude.{◌≡◌, refl}
use aegis_go.Rules.{codes}
use aegis_go.Normalize.{normalize}

sample_key :
    normalize (codes "  sum  data/2024.csv with 'a/b' and 1,000 rows ")
    ≡ codes "sum <path> with <q> and <n> rows"
unfolding normalize
sample_key = refl
