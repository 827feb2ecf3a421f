-- ===== src/LfQueue/Fifo.antt =====
-- What the queue promises to the threads that use it.
