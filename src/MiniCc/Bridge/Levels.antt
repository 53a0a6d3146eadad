-- ===== src/MiniCc/Bridge/Levels.antt =====
-- The level of the statements and of `clang_bridge_parse` in mini-cc/src/clang_bridge.c.
use micro_colorschemes.MiniCc.Clang.{Clang}
