-- ===== src/Server/Logins.antt =====
-- What `buffered_on_read` of src/server_threaded.c and `user_login_func` of src/dbmanager.cpp make
-- of a login together.
