-- ===== src/Utils/Examples.antt =====
-- Runs on texts, dates and paths.
use socket_cplus_plus.Prelude.{◌≡◌, false, some, [], ◌∷◌, replicate, arith}
use socket_cplus_plus.Utils.Dates.{Tm, get_date_in_utc, get_date_from_string}
use socket_cplus_plus.Utils.Dates.RoundTrip.{InRange, get_date_from_string-get_date_in_utc}
use socket_cplus_plus.Utils.Files.{made, exists, create_sub_directory, with_slash, ends_in_slash}
use socket_cplus_plus.Utils.Files.Directories.{create_sub_directory_lem}

-- The midnight that begins the year 1970, by a clock that knows no other time.
abbrev epoch : Tm
epoch = record { tm_year = 70; tm_mon = 0; tm_mday = 1; tm_hour = 0; tm_min = 0; tm_sec = 0 }

epoch-InRange : InRange epoch
epoch-InRange = record {
  year = omega arith;
  month = omega arith;
  day = omega arith;
  hour = omega arith;
  minute = omega arith;
  second = omega arith;
}

get_date_from_string-get_date_in_utc_example :
    get_date_from_string
      (λ t. epoch)
      (λ t. t.tm_mday)
      9
      (get_date_in_utc (λ t. epoch) (λ t. t.tm_mday) 0)
    ≡ 1
get_date_from_string-get_date_in_utc_example =
    get_date_from_string-get_date_in_utc (λ t. epoch) (λ t. t.tm_mday) 0 9 epoch-InRange

-- "/a/b": mkdir of "/a/b/" is called twice.
create_sub_directory_lem_example :
    create_sub_directory (47 ∷ 97 ∷ 47 ∷ 98 ∷ []) (made ∷ exists ∷ [])
    ≡ some (false, replicate 2 (47 ∷ 97 ∷ 47 ∷ 98 ∷ 47 ∷ []))
unfolding with_slash ends_in_slash
create_sub_directory_lem_example =
    create_sub_directory_lem 47 (97 ∷ 47 ∷ 98 ∷ []) (made ∷ exists ∷ [])
