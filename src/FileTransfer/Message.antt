-- ===== src/FileTransfer/Message.antt =====
-- The requests of a transfer: `edgehog_ft_msg_t` of lib/edgehog_device/include/file_transfer/core.h
-- and `edgehog_ft_msg_init` of lib/edgehog_device/file_transfer/utils.c.
pub mod Types
pub mod Parse
pub mod Sent
pub mod Init
pub mod Accepted
