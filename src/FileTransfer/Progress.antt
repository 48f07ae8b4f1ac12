-- ===== src/FileTransfer/Progress.antt =====
-- The progress of a transfer, `edgehog_ft_update_progress` of
-- lib/edgehog_device/file_transfer/utils.c, with 32-bit products.
use edgehog_zephyr_device.Prelude.{
  ℕ, ◌+◌, ◌*◌, ◌/◌, ◌%◌, ◌≡◌, ◌⊎◌, ltb, leb, Bool, true, false, not, ◌||◌, List, [], ◌∷◌, ◌++◌,
  if◌then◌else◌,
}
use edgehog_zephyr_device.Ztar.Core.{size_mod, add_size}

-- PROGRESS_REPORT_INTERVAL_PERCENT and PROGRESS_REPORT_INTERVAL_BYTES
abbrev pub interval_percent : ℕ
interval_percent = 5

abbrev pub interval_bytes : ℕ
interval_bytes = 256 * 1024

-- The fields of `edgehog_ft_http_cbk_data_t` about the progress, and the reports submitted, the
-- oldest first.
pub record Progress : Type 0 where
  pub progress : Bool
  pub transferred_bytes : ℕ
  pub total_bytes : ℕ
  pub last_reported_bytes : ℕ
  pub reports : List ℕ

-- `bytes * 100 / total_bytes`
unfoldable pub percent : ℕ → ℕ → ℕ
percent bytes total_bytes = ((bytes * 100) % size_mod) / total_bytes

unfoldable pub should_report : Progress → ℕ → Bool → Bool
should_report p transferred last_chunk =
    if ltb 0 p.total_bytes
    then leb (percent p.last_reported_bytes p.total_bytes + interval_percent)
        (percent transferred p.total_bytes)
      || last_chunk
    else leb (add_size p.last_reported_bytes interval_bytes) transferred || last_chunk

unfoldable pub submit_report : ℕ → Progress → Progress
submit_report transferred p = record p {
  last_reported_bytes = transferred;
  reports = p.reports ++ transferred ∷ [];
}

unfoldable pub update_progress : Progress → ℕ → Bool → Progress
update_progress p chunk_size last_chunk =
    let transferred = add_size p.transferred_bytes chunk_size in
    let counted : Progress = record p { transferred_bytes = transferred } in
    if not p.progress
    then p
    else if should_report p transferred last_chunk
    then submit_report transferred counted
    else counted

-- The distance to the next report: five percent of a known size, 256 KiB of an unknown one.
unfoldable pub is_due : ℕ → ℕ → ℕ → Bool
is_due total_bytes last transferred =
    if ltb 0 total_bytes
    then leb (last * 100 / total_bytes + interval_percent) (transferred * 100 / total_bytes)
    else leb (last + interval_bytes) transferred

-- What a call leaves: the chunk is counted, and the bytes so far are reported where the chunk is the
-- last one or a report is due, and only there.
pub record IsCurrent (before : Progress) (chunk_size : ℕ) (last_chunk : Bool) (p : Progress)
    : Type 0 where
  pub counted : p.transferred_bytes ≡ before.transferred_bytes + chunk_size
  pub current :
      (((last_chunk ≡ true)
          ⊎ (is_due before.total_bytes before.last_reported_bytes p.transferred_bytes ≡ true))
        × (p.last_reported_bytes ≡ p.transferred_bytes)
        × (p.reports ≡ before.reports ++ p.transferred_bytes ∷ []))
      ⊎ ((last_chunk ≡ false)
          × (p.last_reported_bytes ≡ before.last_reported_bytes)
          × (p.reports ≡ before.reports)
          × (is_due p.total_bytes p.last_reported_bytes p.transferred_bytes ≡ false))
