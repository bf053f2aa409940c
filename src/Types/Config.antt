-- ===== src/Types/Config.antt =====
-- crates/types/src/config.rs: the settings that the modelled code reads, their validation, and the
-- highest block that the scanner may touch. Loading from TOML and the environment is left out.
use rgbpp_indexer.Common.{
  ℕ, ◌+◌, ◌-◌, ◌≤◌, ◌<◌, ◌≡◌, Bool, Option, none, some, if◌then◌else◌, ltb, leb, ◌==◌, arith,
}
use rgbpp_indexer.Types.Error.{Result, ok, err, config}
use rgbpp_indexer.Types.Ckb.{h256_eq, h256_zero}
use rgbpp_indexer.Types.Protocol.{ProtocolScripts}
use rgbpp_indexer.Types.Asset.{AssetScripts}

pub record CkbConfig : Type 0 where
  pub start_block : ℕ
  pub reorg_lag : ℕ
  pub batch_blocks : ℕ
  pub page_limit : ℕ
  pub fetch_concurrency : ℕ
  pub header_retention : ℕ

-- Whether the three URLs are empty stands for the URLs themselves.
pub record Config : Type 0 where
  pub database_url_empty : Bool
  pub ckb_rpc_url_empty : Bool
  pub btc_base_url_empty : Bool
  pub ckb : CkbConfig
  pub protocol : ProtocolScripts
  pub assets : AssetScripts

unfoldable pub validate : Config → Result (Unit {0})
unfolding h256_eq h256_zero
validate c =
    if c.database_url_empty
    then err (config "database.url is empty")
    else if c.ckb_rpc_url_empty
    then err (config "ckb.rpc_url is empty")
    else if c.btc_base_url_empty
    then err (config "btc.base_url is empty")
    else if c.ckb.page_limit == 0
    then err (config "ckb.page_limit must be positive")
    else if c.ckb.fetch_concurrency == 0
    then err (config "ckb.fetch_concurrency must be positive")
    else if c.ckb.batch_blocks == 0
    then err (config "ckb.batch_blocks must be positive")
    else if h256_eq c.protocol.rgbpp_lock.code_hash h256_zero
    then err (config "protocol.rgbpp_lock.code_hash is unset")
    else if h256_eq c.protocol.btc_time_lock.code_hash h256_zero
    then err (config "protocol.btc_time_lock.code_hash is unset")
    else ok tt

-- `checked_sub`, then the filter.
unfoldable pub safe_ckb_target : CkbConfig → ℕ → Option ℕ
safe_ckb_target c tip =
    if ltb tip c.reorg_lag
    then none
    else (let target = tip - c.reorg_lag in if leb c.start_block target then some target else none)

-- A target is below the tip by exactly the configured lag, and not below the first block to scan.
pub safe_ckb_target-eq-some :
    (c : CkbConfig) (tip target : ℕ)
    → safe_ckb_target c tip ≡ some target
    → (target + c.reorg_lag ≡ tip) × (c.start_block ≤ target)
unfolding safe_ckb_target
safe_ckb_target-eq-some c tip target h = ground arith

pub validate-batch_blocks : (c : Config) → validate c ≡ ok tt → 0 < c.ckb.batch_blocks
unfolding validate
validate-batch_blocks c h = ground arith
