-- ===== src/Exfat/Header/Tests.antt =====
-- A volume of 1000 clusters of 8 sectors.
use cofuos.Prelude.{ℕ, ◌≡◌, refl, ◌≢◌, true, ◌^◌, none, some, arith}
use cofuos.Exfat.Header.{Header, Volume, parse_header, lba_of_cluster}
use cofuos.Exfat.Header.Bounds.{parse_header-IsLaidOut, IsLaidOut}

abbrev header : Header
header = record {
  signature = 43605;
  fs_name_ok = true;
  zero_ok = true;
  fs_version = 256;
  sector_shift = 9;
  base = 64;
  limit = 10000;
  fat_offset = 24;
  fat_length = 8;
  cluster_offset = 32;
  cluster_count = 1000;
  cluster_shift = 3;
  fat_count = 1;
  flags = 0;
  root_dir = 5;
}

abbrev empty_volume : Volume
empty_volume = record {
  base = 64;
  top = 0;
  table = 0;
  heap = 0;
  cluster_count = 0;
  cluster_shift = 0;
}

abbrev volume : Volume
volume = record {
  base = 64;
  top = 10064;
  table = 88;
  heap = 96;
  cluster_count = 1000;
  cluster_shift = 12;
}

test_parse : parse_header header empty_volume ≡ some (5, volume)
test_parse = refl

test_cluster : lba_of_cluster volume 4 ≡ 112
test_cluster = refl

-- With two FATs, of which the second is in use, a heap right after the FATs is refused.
test_second_fat :
    parse_header (record header { fat_count = 2; flags = 1; cluster_offset = 40 }) empty_volume
    ≡ none
test_second_fat = refl

parse_header-IsLaidOut_example : let root : ℕ = 5 in IsLaidOut volume (2 ^ 3) × (root ≢ 0)
parse_header-IsLaidOut_example =
    parse_header-IsLaidOut header empty_volume 5 volume (omega arith, omega arith, omega arith)
      test_parse
