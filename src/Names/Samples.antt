-- ===== src/Names/Samples.antt =====
-- Names that are cut.
use multi_networkpolicy_nfta.Names.{nft_name_max_len, truncate_nft_name, nft_name_with_suffix}
use multi_networkpolicy_nfta.Names.Bounds.{
  length-nft_name_with_suffix-le, IsNftByte, truncate_nft_name-IsNftByte,
}
use multi_networkpolicy_nfta.Base.{length, replicate, All, Bytes, codes, ◌≤◌, ◌++◌}

abbrev long_name : Bytes
long_name = replicate 300 b'a' ++ codes "/team ü"

length-nft_name_with_suffix-le_example :
    length (nft_name_with_suffix long_name (codes "-") (codes "ports-0")) ≤ nft_name_max_len
length-nft_name_with_suffix-le_example =
    length-nft_name_with_suffix-le long_name (codes "-") (codes "ports-0")

truncate_nft_name-IsNftByte_example : All IsNftByte (truncate_nft_name long_name 40)
truncate_nft_name-IsNftByte_example = truncate_nft_name-IsNftByte long_name 40
