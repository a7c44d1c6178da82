-- ===== src/Migration/Tests.antt =====
-- The theorems about redisw/cmd at concrete inputs: a Redis that counts its calls.
use helper.Base.{ℕ, suc, ◌+◌, ◌≡◌, refl, true, none, some, List, [], ◌∷◌, ◌++◌, length, arith}
use helper.Base.Int.{pos}
use helper.Base.Text.{Bytes, codes}
use helper.Migration.{Record, Redis, Progress, main_loop, is_public_account, row_calls}
use helper.Migration.Order.{last_id, after_id}
use helper.Migration.Advance.{execute, copying, finally, main_loop-migrates}

abbrev counting : Redis
counting = record { State = ℕ; call = λ s c. (suc s, none); date = λ t. codes "2018-01-01" }

abbrev row : ℕ → Bytes → Record
row n mac = record {
  id = pos n;
  ac_mac = mac;
  wid = pos 7;
  app_id = codes "wx";
  open_id = codes "o";
  union_id = [];
  height = 0;
  weight = 0;
  bmi = 0;
  subscribe = pos 0;
  subscribe_time = pos 10;
  scale_time = pos 10;
  add_time = pos 10;
  update_time = pos 20;
}

abbrev start : Progress counting
start = record { store = 0; id_processed = pos 3; processed = 0 }

abbrev table : List Record
table = row 2 (codes "m") ∷ row 5 (codes "m") ∷ row 8 (codes "m") ∷ []

main_loop-migrates_example :
    (q : Progress counting) × (main_loop counting 4 (λ p. none) table start ≡ some q)
    × (q.id_processed ≡ last_id (pos 3) (after_id (pos 3) table))
    × (q.processed ≡ 0 + length (after_id (pos 3) table))
    × (q.store
        ≡ execute counting 0 (
            copying counting 0 (after_id (pos 3) table)
            ++ finally counting (pos 3) (after_id (pos 3) table)))
main_loop-migrates_example =
    main_loop-migrates counting 4 table (λ p. none) start (λ s c. refl) (λ q. refl)
      ((refl, (refl, tt)), ((refl, tt), (tt, tt))) (refl, (refl, (refl, tt))) (omega arith)

-- A row of a follower who left makes thirteen calls.
calls_of_row : length (row_calls counting (codes "7") (row 5 (codes "m"))) ≡ 13
calls_of_row = refl

public_account : is_public_account (codes "wx0123456789abcdef") ≡ true
unfolding is_public_account
public_account = refl
