-- ===== src/Strings/Fold.antt =====
-- `bkStrEqual` compares without regard to case.
