-- ===== src/Rows/Groups.antt =====
-- scan.go: the loops along the groups of a row end.
