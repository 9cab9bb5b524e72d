-- ===== src/Efi.antt =====
-- The EFI_STATUS codes that the modelled code returns.
pub data Status : Type 0 where
  success invalid_parameter unsupported not_ready device_error already_started : Status
  out_of_resources not_found : Status
