-- ===== src/Files/Tests.antt =====
-- A file of five bytes, four asked for, in pieces of three.
