-- ===== src/Intent/Binds.antt =====
-- The intents that are encoded to the same bytes by the descriptor of one action.
use porsche.Intent.Forms.{Intent}
