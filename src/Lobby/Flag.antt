-- ===== src/Lobby/Flag.antt =====
-- src/lobby.h and src/clients.h: the bits of the flag words that src/lobby.c tests and changes.
use ship_server.Base.{ℕ}

-- LOBBY_FLAG_*
abbrev pub bursting : ℕ
bursting = 0x1

abbrev pub questing : ℕ
questing = 0x2

abbrev pub questsel : ℕ
questsel = 0x4

abbrev pub temp_unavail : ℕ
temp_unavail = 0x8

abbrev pub legit_mode : ℕ
legit_mode = 0x10

abbrev pub only_one : ℕ
only_one = 0x20

abbrev pub dconly : ℕ
dconly = 0x40

abbrev pub pconly : ℕ
pconly = 0x80

abbrev pub v1only : ℕ
v1only = 0x100

abbrev pub gc_allowed : ℕ
gc_allowed = 0x200

abbrev pub singleplayer : ℕ
singleplayer = 0x400

-- LOBBY_QFLAG_JOIN, LOBBY_QFLAG_SYNC_REGS
abbrev pub q_join : ℕ
q_join = 0x4

abbrev pub q_sync_regs : ℕ
q_sync_regs = 0x8

-- CLIENT_FLAG_*
abbrev pub c_bursting : ℕ
c_bursting = 0x400

abbrev pub c_override_game : ℕ
c_override_game = 0x800

abbrev pub c_track_kills : ℕ
c_track_kills = 0x40000

abbrev pub c_shopping : ℕ
c_shopping = 0x10000000
