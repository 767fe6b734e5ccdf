-- ===== src/Storage/Restart.antt =====
-- About a restart over the files of internal/storage/filestore/filestore.go.
